-- ===== src/World/Calls.antt =====
-- The steps of a service method: return, fail, call a service, query, write, publish; and
-- transactions (server/db/db.go).
use at_app.Base.{
  ℕ, suc, ◌-◌, Bool, true, false, not, Option, none, some, [], ◌∷◌, ◌++◌, String, ltb,
  if◌then◌else◌,
}
use at_app.Store.{Uuid, Time, Database}
use at_app.Store.Rls.{rls_view}
use at_app.World.Defs.{
  Entry, Cache, Message, World, Error, app, internal, Result, ok, err, Svc, ◌>>=◌, ◌>>◌,
}

module _ {A : Type 0} where
  unfoldable pub pure : A → Svc A
  pure a w = (ok a, w)

  unfoldable pub raise : Error → Svc A
  raise e w = (err e, w)

  unfoldable pub gets : (World → A) → Svc A
  gets f w = (ok (f w), w)

-- One call of a service outside the program: `false` if it fails.
unfoldable pub reach : Svc Bool
reach w = (ok (not (w.env.down w.calls)), record w { calls = suc w.calls })

abbrev or_internal : Bool → Svc (Unit {0})
or_internal up w = if up then (ok tt, w) else (err internal, w)

-- A call whose failure the method returns.
unfoldable pub call : Svc (Unit {0})
unfolding reach ◌>>=◌
call = do up ← reach; or_internal up

-- `utils.NewAppError` under a condition.
unfoldable pub reject_if : Bool → ℕ → String → Svc (Unit {0})
reject_if true status message w = (err (app status message), w)
reject_if false status message w = (ok tt, w)

-- What the row-level security policies let the running transaction see.
abbrev pub view : World → Database
view w = rls_view w.env.rls w.tenant w.db

-- A SELECT: it may fail, and reads the visible rows.
unfoldable pub query : {A : Type 0} → (Database → A) → Svc A
unfolding call gets ◌>>=◌
query f = do call; gets (λ w. f (view w))

-- A SELECT whose failure the method passes over.
unfoldable pub try_query : {A : Type 0} → (Database → A) → Svc (Option A)
unfolding reach ◌>>=◌
try_query f = do up ← reach; λ w. (ok (if up then some (f (view w)) else none), w)

-- `errors.Is(err, sql.ErrNoRows)` turned into an `AppError`.
unfoldable pub or_reject : {A : Type 0} → Option A → ℕ → String → Svc A
or_reject none status message w = (err (app status message), w)
or_reject (some a) status message w = (ok a, w)

-- A `QueryRow` whose missing row is an unexpected error.
unfoldable pub or_fail : {A : Type 0} → Option A → Svc A
or_fail none w = (err internal, w)
or_fail (some a) w = (ok a, w)

-- An INSERT or UPDATE: it may fail, also by a policy or a constraint.
abbrev written : {A : Type 0} → Option (A × Database) → Svc A
written none w = (err internal, w)
written (some (a, d)) w = (ok a, record w { db = d })

unfoldable pub statement : {A : Type 0} → (World → Option (A × Database)) → Svc A
unfolding call gets ◌>>=◌
statement f = do call; r ← gets f; written r

-- The identifier that a DEFAULT uuid_generate_v4() yields in the next statement.
abbrev pub new_id : World → Uuid
new_id w = w.env.uuid w.calls

-- `db.WithTenant`
unfoldable pub with_tenant : Uuid → Svc (Unit {0})
unfolding call ◌>>=◌
with_tenant college_id = do call; λ w. (ok tt, record w { tenant = some college_id })

-- Rollback: what the transaction wrote is undone, and its setting is gone.
abbrev pub rolled_back : Database → World → World
rolled_back before w = record w { db = before; tenant = none }

module _ {A : Type 0} where
  -- `tx.Commit()`
  unfoldable pub commit : Database → A → Svc A
  unfolding reach
  commit before a w =
      if not (w.env.down w.calls)
      then (ok a, record w { calls = suc w.calls; tenant = none })
      else (err internal, rolled_back before (record w { calls = suc w.calls }))

  unfoldable pub finish : (A → Bool) → Database → Result A → Svc A
  unfolding commit
  finish commits before (err e) w = (err e, rolled_back before w)
  finish commits before (ok a) w =
      if commits a then commit before a w else (ok a, rolled_back before w)

  -- `BeginTx`, `defer tx.Rollback()`, the body, and `Commit` where the body gets that far.
  unfoldable pub in_tx : (A → Bool) → Svc A → Svc A
  unfolding call finish ◌>>=◌
  in_tx commits body = do
    call
    before ← λ w. (ok w.db, record w { tenant = none })
    λ w. let (r, w') = body w in finish commits before r w'

-- Most transactions commit whatever they return; a read-only one is rolled back.
abbrev pub always : {A : Type 0} → A → Bool
always _ = true

abbrev pub never : {A : Type 0} → A → Bool
never _ = false

-- `s.eventBus.Publish`, whose error the callers drop: a message that fails is lost.
unfoldable pub publish : Message → Svc (Unit {0})
unfolding reach ◌>>=◌
publish m = do up ← reach; λ w. (ok tt, if up then record w { bus = w.bus ++ m ∷ [] } else w)

-- A key is there while its time has not come.
unfoldable pub live : {A : Type 0} → Time → Option (Entry A) → Option A
live now none = none
live now (some e) = elim e.expires [
  | none ↦ some e.value
  | some t ↦ if ltb now t then some e.value else none
]

unfoldable pub time_left : {A : Type 0} → Time → Option (Entry A) → ℕ
time_left now none = 0
time_left now (some e) = elim e.expires [ none ↦ 0 | some t ↦ t - now ]

-- `rdb.Get(…).Result()`: `none` for a missing key and for a failing call alike.
unfoldable pub redis_get : {A : Type 0} → (Cache → Option (Entry A)) → Svc (Option A)
unfolding reach ◌>>=◌
redis_get key = do up ← reach; λ w. (ok (if up then live w.now (key w.cache) else none), w)

-- `rdb.Set`, `Del`, `Incr` and `Expire` with the error dropped.
unfoldable pub redis_do : (Time → Cache → Cache) → Svc (Unit {0})
unfolding reach ◌>>=◌
redis_do f = do up ← reach; λ w. (ok tt, if up then record w { cache = f w.now w.cache } else w)

-- `rdb.Set` whose error the method returns.
unfoldable pub redis_must : (Time → Cache → Cache) → Svc (Unit {0})
unfolding reach ◌>>=◌
redis_must f = do
  up ← reach
  λ w. if up then (ok tt, record w { cache = f w.now w.cache }) else (err internal, w)

-- The seconds that `rdb.TTL` reports, cut to an `int`: 0 where the call fails, and for a key that
-- is missing or never expires.
unfoldable pub redis_ttl : {A : Type 0} → (Cache → Option (Entry A)) → Svc ℕ
unfolding reach ◌>>=◌
redis_ttl key = do up ← reach; λ w. (ok (if up then time_left w.now (key w.cache) else 0), w)
