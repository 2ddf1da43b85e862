-- ===== src/World/Defs.antt =====
-- The state and the errors (server/internal/event/payloads.go, server/internal/utils/http.go).
use at_app.Base.{ℕ, Bool, Option, List, String}
use at_app.Base.Floats.{Float}
use at_app.Store.{Uuid, Text, Code, Time, Status, Database}

-- The services around the program: which of their calls fail, the identifiers that Postgres
-- generates, the numbers that `crypto/rand` yields, whether row-level security binds the role
-- that the server connects as, and a bound on the rounds of the code rotation's loop.
pub record Env : Type 0 where
  pub down : ℕ → Bool
  pub uuid : ℕ → Uuid
  pub draw : ℕ → ℕ
  pub rls : Bool
  pub fuel : ℕ

-- A Redis key's value, and when it expires.
pub record Entry (A : Type 0) : Type 0 where
  pub value : A
  pub expires : Option Time

-- The Redis keys by their format: `session:%s:code`, `session:%s:prev`,
-- `rate:student:%s:session:%s` and `ratelimit:%s:%s`.
pub record Cache : Type 0 where
  pub code : Uuid → Option (Entry Code)
  pub prev : Uuid → Option (Entry Code)
  pub attempts : Uuid → Uuid → Option (Entry ℕ)
  pub limits : Text → Text → Option (Entry ℕ)

pub record SessionStartedEvent : Type 0 where
  pub session_id : Uuid
  pub section_id : Uuid
  pub college_id : Uuid
  pub started_by : Uuid
  pub started_at : Time

pub record SessionEndedEvent : Type 0 where
  pub session_id : Uuid
  pub section_id : Uuid
  pub college_id : Uuid
  pub ended_at : Time

pub record AttendanceRecordedEvent : Type 0 where
  pub record_id : Uuid
  pub session_id : Uuid
  pub student_id : Uuid
  pub college_id : Uuid
  pub section_id : Uuid
  pub status : Status
  pub recorded_at : Time

pub record ThresholdBreachedEvent : Type 0 where
  pub student_id : Uuid
  pub section_id : Uuid
  pub college_id : Uuid
  pub current_pct : Float
  pub threshold_pct : Float

-- A message of the event bus, by its topic.
pub data Message : Type 0 where
  session_started : SessionStartedEvent → Message
  session_ended : SessionEndedEvent → Message
  attendance_recorded : AttendanceRecordedEvent → Message
  threshold_breached : ThresholdBreachedEvent → Message

-- `tenant` is the setting `app.current_college_id` of the running transaction.
pub record World : Type 0 where
  pub env : Env
  pub calls : ℕ
  pub now : Time
  pub tenant : Option Uuid
  pub db : Database
  pub cache : Cache
  pub bus : List Message
  pub sessions_started : ℕ
  pub sessions_ended : ℕ
  pub checkins_accepted : ℕ
  pub checkins_rejected : ℕ

-- `app` is an `AppError`; `internal` is any other error, whose text is only logged; `sentinel`
-- is one of the error values that a caller tells apart by `errors.Is`; `hangs` stands for a call
-- that has not returned within the environment's bound.
pub data Error : Type 0 where
  app : ℕ → String → Error
  internal : Error
  invalid_credentials user_not_found : Error
  hangs : Error

pub data Result {ℓ} (A : Type ℓ) : Type ℓ where
  ok : A → Result A
  err : Error → Result A

-- The world comes back beside an error too.
abbrev pub Svc : Type 0 → Type 0
Svc A = World → Result A × World

module _ {A B : Type 0} where
  unfoldable pub continue : Result A → (A → Svc B) → Svc B
  continue (ok a) f w = f a w
  continue (err e) f w = (err e, w)

  infixl 5 ◌>>=◌
  unfoldable pub ◌>>=◌ : Svc A → (A → Svc B) → Svc B
  unfolding continue
  ◌>>=◌ m f w = let (r, w') = m w in continue r f w'

infixl 5 ◌>>◌
abbrev pub ◌>>◌ : {B : Type 0} → Svc (Unit {0}) → Svc B → Svc B
m >> k = m >>= λ _. k
