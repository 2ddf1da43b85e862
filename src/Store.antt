-- ===== src/Store.antt =====
-- The tables of server/db/migrations/000001_init.up.sql that the services read and write, as lists
-- of rows. Identifiers (UUIDs) and texts are only compared, so each stands for its number in a
-- fixed numbering, the empty text being 0. A NUMERIC column is the integer of its scaled digits.
pub mod Rls
pub mod Attendance
pub mod Upsert
pub mod Isolation
pub mod Inside
use at_app.Base.{ℕ, Bool, true, false, Option, some, none, List, String}
use at_app.Base.Int.{ℤ}

abbrev pub Uuid : Type 0
Uuid = ℕ

abbrev pub Text : Type 0
Text = ℕ

-- the six bytes of a check-in code
abbrev pub Code : Type 0
Code = List ℕ

-- seconds
abbrev pub Time : Type 0
Time = ℕ

-- The text of a role; `other` is any text that the program does not name.
pub data Role : Type 0 where
  student teacher admin : Role
  other : Text → Role

-- The text of an attendance status.
pub data Status : Type 0 where
  present absent overridden_present overridden_absent : Status
  other : Text → Status

-- status = 'present'
unfoldable pub is_present : Status → Bool
is_present Status.present = true
is_present _ = false

-- status = 'absent'
unfoldable pub is_absent : Status → Bool
is_absent Status.absent = true
is_absent _ = false

-- status IN ('overridden_present', 'overridden_absent')
unfoldable pub is_overridden : Status → Bool
is_overridden Status.overridden_present = true
is_overridden Status.overridden_absent = true
is_overridden _ = false

-- status IN ('present', 'overridden_present')
unfoldable pub counts_present : Status → Bool
counts_present Status.present = true
counts_present Status.overridden_present = true
counts_present _ = false

-- status IN ('absent', 'overridden_absent')
unfoldable pub counts_absent : Status → Bool
counts_absent Status.absent = true
counts_absent Status.overridden_absent = true
counts_absent _ = false

pub data CheckinOutcome : Type 0 where
  accepted rejected : CheckinOutcome

-- `verification_policy` is the raw JSON of the column.
pub record College : Type 0 where
  pub id : Uuid
  pub name : Text
  pub verification_policy : Text

pub record User : Type 0 where
  pub id : Uuid
  pub college_id : Uuid
  pub role : Role
  pub name : Text
  pub email : Text
  pub password_hash : Text
  pub fcm_token : Option Text

pub record Department : Type 0 where
  pub id : Uuid
  pub college_id : Uuid
  pub name : Text

pub record Course : Type 0 where
  pub id : Uuid
  pub college_id : Uuid
  pub department_id : Uuid
  pub name : Text
  pub code : Text
  pub attendance_threshold_pct : Option ℤ

pub record Section : Type 0 where
  pub id : Uuid
  pub college_id : Uuid
  pub course_id : Uuid
  pub term : Text
  pub teacher_id : Uuid
  pub classroom_bssid : Option Text
  pub classroom_geofence_lat : Option ℤ
  pub classroom_geofence_lng : Option ℤ
  pub classroom_geofence_radius_m : Option ℤ

pub record Enrollment : Type 0 where
  pub id : Uuid
  pub college_id : Uuid
  pub student_id : Uuid
  pub section_id : Uuid

pub record ClassSession : Type 0 where
  pub id : Uuid
  pub college_id : Uuid
  pub section_id : Uuid
  pub started_by : Uuid
  pub started_at : Time
  pub ended_at : Option Time
  pub current_code : Code
  pub code_updated_at : Time
  pub geofence_override_lat : Option ℤ
  pub geofence_override_lng : Option ℤ
  pub geofence_override_radius_m : Option ℤ

-- ended_at IS NULL
abbrev pub is_open : ClassSession → Bool
is_open cs = elim cs.ended_at [ none ↦ true | some _ ↦ false ]

pub record VerificationAttempt : Type 0 where
  pub id : Uuid
  pub college_id : Uuid
  pub session_id : Uuid
  pub student_id : Uuid
  pub submitted_at : Time
  pub code_match : Bool
  pub bssid_match : Bool
  pub geofence_match : Bool
  pub raw_bssid : Option Text
  pub raw_gps_lat : Option ℤ
  pub raw_gps_lng : Option ℤ
  pub result : CheckinOutcome
  pub rejection_reason : Option String

pub record AttendanceRecord : Type 0 where
  pub id : Uuid
  pub college_id : Uuid
  pub session_id : Uuid
  pub student_id : Uuid
  pub status : Status
  pub recorded_at : Time
  pub verification_attempt_id : Option Uuid

pub record OverrideRow : Type 0 where
  pub id : Uuid
  pub college_id : Uuid
  pub attendance_record_id : Uuid
  pub overridden_by : Uuid
  pub reason : Text
  pub created_at : Time

pub record AttendanceAggregate : Type 0 where
  pub college_id : Uuid
  pub student_id : Uuid
  pub section_id : Uuid
  pub present_count : ℕ
  pub total_sessions : ℕ
  pub attendance_pct : ℤ
  pub updated_at : Time

pub record Database : Type 0 where
  pub colleges : List College
  pub users : List User
  pub departments : List Department
  pub courses : List Course
  pub sections : List Section
  pub enrollments : List Enrollment
  pub class_sessions : List ClassSession
  pub verification_attempts : List VerificationAttempt
  pub attendance_records : List AttendanceRecord
  pub overrides : List OverrideRow
  pub attendance_aggregates : List AttendanceAggregate
