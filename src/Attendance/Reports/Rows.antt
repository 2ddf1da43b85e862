-- ===== src/Attendance/Reports/Rows.antt =====
-- The rows and the joins of the reports (server/internal/attendance/service.go).
use at_app.Base.{
  ℕ, Bool, Option, none, some, List, [], ◌∷◌, ◌==◌, if◌then◌else◌, select, first, join,
}
use at_app.Base.Floats.{Float}
use at_app.Store.{Uuid, Text, Time, Database, User, Course, Section, Enrollment, Status}

-- ORDER BY: insertion sort by a test of "not after".
module _ {A : Type 0} (before : A → A → Bool) where
  unfoldable pub insert_by : A → List A → List A
  insert_by x [] = x ∷ []
  insert_by x (y ∷ ys) = if before x y then x ∷ y ∷ ys else y ∷ insert_by x ys

  unfoldable pub order_by : List A → List A
  unfolding insert_by
  order_by [] = []
  order_by (x ∷ xs) = insert_by x (order_by xs)

pub record Metrics : Type 0 where
  pub present_count : ℕ
  pub total_sessions : ℕ
  pub attendance_pct : Float

pub record StudentCourseDto : Type 0 where
  pub section_id : Uuid
  pub course_name : Text
  pub course_code : Text
  pub metrics : Metrics
  pub open metrics use *

pub record TeacherSectionDto : Type 0 where
  pub section_id : Uuid
  pub term : Text
  pub course_name : Text
  pub course_code : Text
  pub classroom_bssid : Option Text
  pub classroom_geofence_lat : Option Float
  pub classroom_geofence_lng : Option Float
  pub classroom_geofence_radius_m : Option Float

-- `pending` is COALESCE(ar.status, 'pending') of a student without a record.
pub data RosterStatus : Type 0 where
  pending : RosterStatus
  recorded : Status → RosterStatus

pub record RosterStudentDto : Type 0 where
  pub student_id : Uuid
  pub name : Text
  pub email : Text
  pub status : RosterStatus
  pub recorded_at : Option Time

pub record StudentDashboardDto : Type 0 where
  pub student_id : Uuid
  pub name : Text
  pub email : Text
  pub metrics : Metrics
  pub open metrics use *

pub record SessionHistoryDto : Type 0 where
  pub session_id : Uuid
  pub started_at : Time
  pub ended_at : Option Time
  pub present_count : ℕ
  pub absent_count : ℕ

-- The section of a session, and a section by its identifier.
unfoldable pub session_owner : Uuid → Database → Option Uuid
session_owner session d =
    let mine = select (λ cs. cs.id == session) d.class_sessions in
    elim (first (join (λ cs s. s.id == cs.section_id) mine d.sections)) [
      | none ↦ none
      | some (cs, s) ↦ some s.teacher_id
    ]

unfoldable pub section_owner : Uuid → Database → Option Uuid
section_owner section d = elim (first (select (λ s. s.id == section) d.sections)) [
  | none ↦ none
  | some s ↦ some s.teacher_id
]

-- JOIN courses c ON c.id = s.course_id
abbrev pub with_course : List Section → Database → List (Section × Course)
with_course sections d = join (λ s c. c.id == s.course_id) sections d.courses

-- JOIN users u ON u.id = e.student_id
abbrev pub with_user : List Enrollment → Database → List (Enrollment × User)
with_user enrollments d = join (λ e u. u.id == e.student_id) enrollments d.users
