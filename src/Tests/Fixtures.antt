-- ===== src/Tests/Fixtures.antt =====
-- A college with one section, its teacher and two students, and one open session.
use at_app.Base.{ℕ, ◌+◌, true, false, Option, none, some, [], ◌∷◌, leb, ltb, ◌==◌, if◌then◌else◌}
use at_app.Base.Int.{pos}
use at_app.Base.Floats.{Floats}
use at_app.Store.{Uuid, Code, Role, User, Section, Enrollment, ClassSession, Database}
use at_app.World.{Env, Entry, Cache, World}
use at_app.Verification.Signals.{Unmarshal}

-- Arithmetic that leaves its first argument alone: every place is the classroom.
abbrev pub floats : Floats
floats = record {
  add = λ a b. a;
  sub = λ a b. a;
  mul = λ a b. a;
  div = λ a b. a;
  sin = λ a. a;
  cos = λ a. a;
  sqrt = λ a. a;
  atan2 = λ a b. a;
  pi = 3;
  le = λ a b. true;
  lt = λ a b. ltb a b;
  of_int = λ n. 0;
  of_numeric = λ d n. 75;
  to_numeric = λ d x. pos x;
}

abbrev pub unmarshal : Unmarshal
unmarshal raw p = p

abbrev pub shown_code : Code
shown_code = 49 ∷ 50 ∷ 51 ∷ 52 ∷ 53 ∷ 54 ∷ []

abbrev pub lecture : ClassSession
lecture = record {
  id = 7;
  college_id = 1;
  section_id = 5;
  started_by = 10;
  started_at = 43000;
  ended_at = none;
  current_code = shown_code;
  code_updated_at = 43000;
  geofence_override_lat = none;
  geofence_override_lng = none;
  geofence_override_radius_m = none;
}

abbrev pub section : Uuid → Section
section id = record {
  id = id;
  college_id = 1;
  course_id = 3;
  term = 50;
  teacher_id = 10;
  classroom_bssid = some 60;
  classroom_geofence_lat = none;
  classroom_geofence_lng = none;
  classroom_geofence_radius_m = none;
}

abbrev pub student : Uuid → User
student id = record {
  id = id;
  college_id = 1;
  role = Role.student;
  name = 70;
  email = id;
  password_hash = 80;
  fcm_token = none;
}

abbrev pub enrollment : Uuid → Enrollment
enrollment student = record { id = 90; college_id = 1; student_id = student; section_id = 5 }

abbrev pub tables : Database
tables = record {
  colleges = record { id = 1; name = 40; verification_policy = 1 } ∷ [];
  users = student 20 ∷ student 21 ∷ [];
  departments = record { id = 2; college_id = 1; name = 43 } ∷ [];
  courses =
      record {
        id = 3;
        college_id = 1;
        department_id = 2;
        name = 41;
        code = 42;
        attendance_threshold_pct = some (pos 7500);
      }
      ∷ [];
  sections = section 5 ∷ section 6 ∷ [];
  enrollments = enrollment 20 ∷ enrollment 21 ∷ [];
  class_sessions = lecture ∷ [];
  verification_attempts = [];
  attendance_records = [];
  overrides = [];
  attendance_aggregates = [];
}

abbrev pub surroundings : Env
surroundings = record {
  down = λ n. false;
  uuid = λ n. 100 + n;
  draw = λ n. 7 + n;
  rls = true;
  fuel = 3;
}

-- `code` is the key of the open session's code, if Redis has it.
abbrev pub cache : Option (Entry Code) → Cache
cache code = record {
  code = λ s. if s == 7 then code else none;
  prev = λ s. none;
  attempts = λ student s. none;
  limits = λ name ip. none;
}

abbrev pub noon_with : Option (Entry Code) → World
noon_with code = record {
  env = surroundings;
  calls = 0;
  now = 43200;
  tenant = none;
  db = tables;
  cache = cache code;
  bus = [];
  sessions_started = 0;
  sessions_ended = 0;
  checkins_accepted = 0;
  checkins_rejected = 0;
}

abbrev pub noon : World
noon = noon_with (some (record { value = shown_code; expires = some 43205 }))

-- Every service is out of reach from the `n`-th call on.
abbrev pub failing_from : ℕ → World → World
failing_from n w = record w { env = record surroundings { down = λ i. leb n i } }
