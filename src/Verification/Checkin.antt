-- ===== src/Verification/Checkin.antt =====
-- `SubmitCheckin` (server/internal/verification/service.go), the transaction and what follows it.
use at_app.Base.{
  ℕ, suc, ◌+◌, Bool, true, false, ◌&&◌, Option, none, some, [], ◌∷◌, ◌++◌, String, ◌==◌,
  if◌then◌else◌, select, exists_where, first, join,
}
use at_app.Base.Int.{pos, leb_ℤ}
use at_app.Base.Floats.{Float, Floats}
use at_app.Store.{
  Uuid, Text, Code, Time, Database, Section, ClassSession, VerificationAttempt, AttendanceRecord,
  is_open, CheckinOutcome, accepted, rejected, Status, is_present,
}
use at_app.Store.Rls.{admits}
use at_app.Store.Attendance.{keyed, upsert_record, with_records}
use at_app.World.{
  World, ok, Cache, Message, Svc, ◌>>=◌, ◌>>◌, pure, gets, or_fail, or_reject, query, try_query,
  statement, new_id, with_tenant, in_tx, publish, live, redis_get, redis_do,
}
use at_app.Verification.Signals.{
  Policy, Unmarshal, load_policy, Signals, target, geofence_match, code_match, bssid_match,
  rejection_reason, outcome,
}

pub record CheckinResult : Type 0 where
  pub result : CheckinOutcome
  pub rejection_reason : Option String

-- observability.CheckinsTotal.WithLabelValues(result).Inc()
unfoldable pub count_checkin : CheckinOutcome → Svc (Unit {0})
count_checkin accepted w = (ok tt, record w { checkins_accepted = suc w.checkins_accepted })
count_checkin rejected w = (ok tt, record w { checkins_rejected = suc w.checkins_rejected })

-- The policy column of a college.
unfoldable pub find_policy : Uuid → Database → Option Text
find_policy college d = elim (first (select (λ c. c.id == college) d.colleges)) [
  | none ↦ none
  | some c ↦ some c.verification_policy
]

-- An open session of a section that the student is enrolled in; LIMIT 1. The query has no ORDER BY:
-- the order of the tables stands for the row that Postgres chooses.
unfoldable pub find_session : Uuid → Database → Option (ClassSession × Section)
find_session student d =
    let open_sessions = select is_open d.class_sessions in
    let enrolled =
      join (λ cs e. e.section_id == cs.section_id && e.student_id == student) open_sessions
        d.enrollments in
    elim (first (join (λ p s. s.id == (p.0).section_id) enrolled d.sections)) [
      | none ↦ none
      | some ((cs, e), s) ↦ some (cs, s)
    ]

unfoldable pub checked_in : Uuid → Uuid → Database → Bool
checked_in session student d =
    exists_where (λ r. keyed session student r && is_present r.status) d.attendance_records

-- INSERT INTO verification_attempts … RETURNING id
unfoldable pub insert_attempt : (Uuid → VerificationAttempt) → World → Option (Uuid × Database)
insert_attempt row w =
    let new = row (new_id w) in
    if admits w.env.rls w.tenant new.college_id
    then some
        (new.id, record (w.db) { verification_attempts = w.db.verification_attempts ++ new ∷ [] })
    else none

-- the VALUES of a present record
abbrev pub present_row : Uuid → Uuid → Uuid → Uuid → World → AttendanceRecord
present_row college session student attempt w = record {
  id = new_id w;
  college_id = college;
  session_id = session;
  student_id = student;
  status = Status.present;
  recorded_at = w.now;
  verification_attempt_id = some attempt;
}

-- DO UPDATE SET status = 'present', …
abbrev pub set_present : Uuid → World → AttendanceRecord → AttendanceRecord
set_present attempt w r = record r {
  status = Status.present;
  verification_attempt_id = some attempt;
  recorded_at = w.now;
}

-- INSERT INTO attendance_records … ON CONFLICT … DO UPDATE SET status = 'present', …
unfoldable pub record_present : Uuid → Uuid → Uuid → Uuid → World → Option (Uuid × Database)
record_present college session student attempt w = with_records w.db (
    upsert_record (admits w.env.rls w.tenant) (present_row college session student attempt w)
      (set_present attempt w) w.db.attendance_records)

abbrev pub too_many : String
too_many = "rate limit exceeded: too many failed check-in attempts for this session"

abbrev pub already : String
already = "already checked in for this session"

-- How the transaction ends: an early return, or a logged attempt that is committed.
pub data Attempt : Type 0 where
  early : CheckinResult → Attempt
  logged : CheckinOutcome → String → Uuid → ClassSession → Attempt

abbrev pub commits : Attempt → Bool
commits (early r) = false
commits (logged o reason record_id cs) = true

-- `err == nil && attempts >= policy.MaxAttempts`
unfoldable pub spent : Policy → Option ℕ → Bool
spent policy none = false
spent policy (some attempts) = leb_ℤ policy.max_attempts (pos attempts)

-- `err == nil && alreadyCheckedIn`
unfoldable pub again : Option Bool → Bool
again none = false
again (some b) = b

-- rejReasonNull
unfoldable pub logged_reason : CheckinOutcome → Signals → Option String
logged_reason accepted s = none
logged_reason rejected s = some (rejection_reason s)

-- A rejection before any signal is looked at.
unfoldable pub turn_away : String → Svc Attempt
turn_away reason = do
  count_checkin rejected
  pure (early (record { result = rejected; rejection_reason = some reason }))

-- rdb.Incr and rdb.Expire of the attempts key
unfoldable pub incr_attempts : Uuid → Uuid → Time → Cache → Cache
unfolding live
incr_attempts student session now c = record c {
  attempts = λ st cs.
      if st == student && cs == session
      then some (elim (live now (c.attempts student session)) [
        | none ↦ record { value = 1; expires = none }
        | some n ↦ record {
          value = suc n;
          expires = elim (c.attempts student session) [ none ↦ none | some e ↦ e.expires ];
        }
      ])
      else c.attempts st cs;
}

unfoldable pub expire_attempts : Uuid → Uuid → Time → Time → Cache → Cache
unfolding live
expire_attempts student session ttl now c = record c {
  attempts = λ st cs.
      if st == student && cs == session
      then elim (live now (c.attempts student session)) [
        | none ↦ none
        | some n ↦ some (record { value = n; expires = some (now + ttl) })
      ]
      else c.attempts st cs;
}

unfoldable pub del_attempts : Uuid → Uuid → Time → Cache → Cache
del_attempts student session now c = record c {
  attempts = λ st cs. if st == student && cs == session then none else c.attempts st cs;
}

-- Step 6: a passing attempt is recorded.
unfoldable pub record_outcome :
    Uuid → Uuid → Uuid → CheckinOutcome → String → ClassSession → Svc Attempt
record_outcome college student attempt accepted reason cs = do
  record_id ← statement (record_present college cs.id student attempt)
  pure (logged accepted "" record_id cs)
record_outcome college student attempt rejected reason cs = pure (logged rejected reason 0 cs)

-- What follows the transaction: the attempts key and the event.
unfoldable pub settle : Uuid → Uuid → Attempt → Svc CheckinResult
settle college student (early r) = pure r
settle college student (logged accepted reason record_id cs) = do
  redis_do (del_attempts student cs.id)
  now ← gets (λ w. w.now)
  publish (
      Message.attendance_recorded (record {
        record_id = record_id;
        session_id = cs.id;
        student_id = student;
        college_id = college;
        section_id = cs.section_id;
        status = Status.present;
        recorded_at = now;
      }))
  pure (record { result = accepted; rejection_reason = none })
settle college student (logged rejected reason record_id cs) = do
  redis_do (incr_attempts student cs.id)
  redis_do (expire_attempts student cs.id 900)
  pure (record { result = rejected; rejection_reason = some reason })

module _ (fl : Floats) (unmarshal : Unmarshal) where
  -- Steps 5 and 6: the attempt is logged, and a passing one recorded.
  unfoldable pub log_attempt :
      Uuid → Uuid → Text → Float → Float → Policy → Signals → ClassSession → Svc Attempt
  log_attempt college student bssid lat lng policy s cs = do
    let o = outcome policy s
    now ← gets (λ w. w.now)
    attempt ← statement (
        insert_attempt λ new. record {
          id = new;
          college_id = college;
          session_id = cs.id;
          student_id = student;
          submitted_at = now;
          code_match = s.code;
          bssid_match = s.bssid;
          geofence_match = s.geo;
          raw_bssid = some bssid;
          raw_gps_lat = some (fl.to_numeric 6 lat);
          raw_gps_lng = some (fl.to_numeric 6 lng);
          result = o;
          rejection_reason = logged_reason o s;
        })
    count_checkin o
    record_outcome college student attempt o (rejection_reason s) cs

  -- Steps 2 to 4: the code, the network and the place.
  unfoldable pub judge : Uuid → Code → Text → Float → Float → ClassSession → Section → Svc Signals
  judge student code bssid lat lng cs s = do
    active ← redis_get (λ c. c.code cs.id)
    prev ← redis_get (λ c. c.prev cs.id)
    pure (record {
      code = code_match code active prev;
      bssid = bssid_match bssid s.classroom_bssid;
      geo = geofence_match fl (target cs s) lat lng;
    })

  -- The transaction.
  unfoldable pub attempt_checkin : Uuid → Uuid → Code → Text → Float → Float → Svc Attempt
  attempt_checkin college student code bssid lat lng = do
    with_tenant college
    raw ← query (find_policy college)
    policy_raw ← or_fail raw
    let policy = load_policy unmarshal policy_raw
    found ← query (find_session student)
    (cs, s) ← or_reject found 404 "no active class session found for your enrolled courses"
    attempts ← redis_get (λ c. c.attempts student cs.id)
    if spent policy attempts then turn_away too_many else do
      present ← try_query (checked_in cs.id student)
      if again present then turn_away already else do
        signals ← judge student code bssid lat lng cs s
        log_attempt college student bssid lat lng policy signals cs

  unfoldable pub submit_checkin : Uuid → Uuid → Code → Text → Float → Float → Svc CheckinResult
  submit_checkin college student code bssid lat lng = do
    attempt ← in_tx commits (attempt_checkin college student code bssid lat lng)
    settle college student attempt
