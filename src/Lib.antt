-- ===== src/Lib.antt =====
-- AtApp, the attendance server: a teacher opens a session for a section and shows a code that
-- rotates, students check in with the code, the network and the place, and the session's end marks
-- the others absent. This library models the Go services of server/internal over one state.
--
-- World.antt is that state: the tables (Store.antt, from server/db/migrations), the Redis keys with
-- their expiry, the messages on the bus, the metrics and the clock, which stands still during a
-- request. A service method is a `Svc`, a function of the state to a result and a state. Every call
-- of Postgres, Redis or Kafka takes the next number, and the environment says which numbers fail,
-- so a theorem over all environments covers every pattern of failures. `in_tx` is BeginTx, the
-- body, Commit, and the deferred Rollback; `with_tenant` is `db.WithTenant`, and a query reads the
-- rows that row-level security shows to the tenant. A statement runs alone: interleavings of two
-- requests between their statements are not modelled.
--
-- Which file models what:
--   Session/        server/internal/session/service.go: StartSession, GetOrRotateCode, EndSession
--   Verification/   server/internal/verification/service.go: SubmitCheckin, pruning
--   Attendance/     server/internal/attendance/service.go: SubmitOverride and the reports
--   Reporting/      server/internal/reporting: UpdateAggregate and its consumer
--   Auth/           server/internal/auth: tokens, accounts and the public endpoints
--   Gateway/        server/internal/gateway: the middleware; CORS and the probes of server/main.go
--   Admin/          server/internal/admin/service.go: the rows that administrators create, and the
--                   CSV imports
--   Tenant/         server/internal/tenant: CreateCollege and newUUIDv4
--   Notification/   server/internal/notification: device tokens, FCM and the alert consumers
--   Endpoints/      the handlers of server/internal/session, verification, attendance and admin, and
--                   the table of routes of server/main.go
--   Migrations/     server/db/migrate.go, over a state of its own: the schema and its versions
--   Config/         server/config/config.go, over the environment variables
--   World/Outcomes  rules for what holds when a method returns a value, one for each kind of step
--   World/Isolation, World/Atomic, World/Total   tenants, transactions, steps that cannot fail
--   Guarantees/Traffic    sequences of requests for several colleges, with time and failures between
--   Guarantees/, Atomic   the theorems on whole requests
--   Tests/          runs on a small college
--
-- Identifiers and texts are numbers, since they are only compared, and the empty text is 0; codes,
-- headers, tokens, file names and environment variables are lists of bytes. Parameters are Go's
-- float64, golang-jwt, bcrypt, json.Unmarshal, net.SplitHostPort, encoding/csv's parsing of a line,
-- the bytes of crypto/rand, strconv.Atoi and time.ParseDuration of the configuration, the collation,
-- Google's endpoints, the sender of emails, and what Postgres makes of the SQL of a migration. A body
-- that does not decode is `none`. The loop of GetOrRotateCode draws from crypto/rand until the code
-- differs; the model bounds it by `fuel`, an error `hangs` beyond it, and as many rounds as it takes
-- to draw another code are enough. All other loops run over a list.
--
-- Foreign keys and the CHECK of a role are modelled for the tables that administrators write, and
-- the unique keys for all. A NUMERIC that overflows its column is not modelled. A commit whose call
-- fails has not happened: that Postgres commits and the connection is lost before the answer is not
-- modelled. A query gives all of its rows or fails. Where a query has no ORDER BY, the order of the
-- table stands for Postgres's choice. Claims of a token always hold an expiry.
--
-- Not modelled: JSON decoding and encoding, SMTP, Kafka and trace headers, metrics export, logging
-- and tracing, the process's start and shutdown in server/main.go, the connections of
-- server/db/db.go and redis.go, and the apps outside server/.
pub mod Base
pub mod Store
pub mod World
pub mod Verification
pub mod Session
pub mod Attendance
pub mod Reporting
pub mod Auth
pub mod Gateway
pub mod Migrations
pub mod Admin
pub mod Tenant
pub mod Notification
pub mod Endpoints
pub mod Config
pub mod Atomic
pub mod Guarantees
pub mod Tests
