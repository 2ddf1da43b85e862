-- ===== src/Store/Isolation.antt =====
-- A write that the policies let through touches the rows of the tenant only.
use at_app.Base.{
  Bool, true, false, not, Option, some, List, ◌≡◌, ap, arith, ◌==◌, select, select-insert,
  select-update_where, ◌&&◌,
}
use at_app.Store.{
  Uuid, Database, ClassSession, VerificationAttempt, AttendanceRecord, OverrideRow,
  AttendanceAggregate, User, Department, Course, Section, Enrollment, College,
}
use at_app.Store.Rls.{admits, outside}
use at_app.Store.Attendance.{keyed, insert_record, upsert_record}

-- Not a row of college `c`.
abbrev pub foreign : Uuid → Uuid → Bool
foreign c college = not (college == c)

-- What the policies admit for tenant `c` is a row of `c`.
pub admits-foreign :
    {rls : Bool} {tenant : Option Uuid} (c college : Uuid)
    → rls ≡ true
    → tenant ≡ some c
    → admits rls tenant college ≡ true
    → foreign c college ≡ false
unfolding admits
admits-foreign c college r t h = ground arith

module _ (c : Uuid) (allowed : Uuid → Bool)
    (own : (college : Uuid) → allowed college ≡ true → foreign c college ≡ false)
    (new : AttendanceRecord) where
  pub insert_record-foreign :
      (rows : List AttendanceRecord) (id : Uuid) (rows' : List AttendanceRecord)
      → insert_record allowed new rows ≡ some (id, rows')
      → select (λ r. foreign c r.college_id) rows' ≡ select (λ r. foreign c r.college_id) rows
  unfolding insert_record
  insert_record-foreign rows id rows' h = ground (
    arith,
    own new.college_id,
    select-insert (λ (r : AttendanceRecord). foreign c r.college_id) rows new,
  )

  pub upsert_record-foreign :
      (set : AttendanceRecord → AttendanceRecord)
      → ((r : AttendanceRecord) → (set r).college_id ≡ r.college_id)
      → (rows : List AttendanceRecord) (id : Uuid) (rows' : List AttendanceRecord)
      → upsert_record allowed new set rows ≡ some (id, rows')
      → select (λ r. foreign c r.college_id) rows' ≡ select (λ r. foreign c r.college_id) rows
  unfolding upsert_record
  upsert_record-foreign set keeps rows id rows' h =
      let touched : AttendanceRecord → Bool =
        λ r. allowed r.college_id && keyed new.session_id new.student_id r in
      ground (
        arith,
        own new.college_id,
        select-insert (λ (r : AttendanceRecord). foreign c r.college_id) rows new,
        select-update_where (λ (r : AttendanceRecord). foreign c r.college_id) touched set rows
            touched_rows,
      )
    where
      touched_rows :
          (r : AttendanceRecord)
          → (allowed r.college_id && keyed new.session_id new.student_id r) ≡ true
          → (foreign c r.college_id ≡ false) × (foreign c (set r).college_id ≡ false)
      touched_rows r e = ground (arith, keeps r, own r.college_id)

-- A table that keeps its foreign rows keeps the database's.
module _ (c : Uuid) (d : Database) where
  pub outside-class_sessions :
      (rows : List ClassSession)
      → select (λ r. foreign c r.college_id) rows
        ≡ select (λ r. foreign c r.college_id) d.class_sessions
      → outside c (record d { class_sessions = rows }) ≡ outside c d
  unfolding outside
  outside-class_sessions rows h = ap (λ t. record (outside c d) { class_sessions = t }) h

  pub outside-verification_attempts :
      (rows : List VerificationAttempt)
      → select (λ r. foreign c r.college_id) rows
        ≡ select (λ r. foreign c r.college_id) d.verification_attempts
      → outside c (record d { verification_attempts = rows }) ≡ outside c d
  unfolding outside
  outside-verification_attempts rows h =
      ap (λ t. record (outside c d) { verification_attempts = t }) h

  pub outside-attendance_records :
      (rows : List AttendanceRecord)
      → select (λ r. foreign c r.college_id) rows
        ≡ select (λ r. foreign c r.college_id) d.attendance_records
      → outside c (record d { attendance_records = rows }) ≡ outside c d
  unfolding outside
  outside-attendance_records rows h = ap (λ t. record (outside c d) { attendance_records = t }) h

  pub outside-overrides :
      (rows : List OverrideRow)
      → select (λ r. foreign c r.college_id) rows ≡ select (λ r. foreign c r.college_id) d.overrides
      → outside c (record d { overrides = rows }) ≡ outside c d
  unfolding outside
  outside-overrides rows h = ap (λ t. record (outside c d) { overrides = t }) h

  pub outside-attendance_aggregates :
      (rows : List AttendanceAggregate)
      → select (λ r. foreign c r.college_id) rows
        ≡ select (λ r. foreign c r.college_id) d.attendance_aggregates
      → outside c (record d { attendance_aggregates = rows }) ≡ outside c d
  unfolding outside
  outside-attendance_aggregates rows h =
      ap (λ t. record (outside c d) { attendance_aggregates = t }) h

  pub outside-users :
      (rows : List User)
      → select (λ r. foreign c r.college_id) rows ≡ select (λ r. foreign c r.college_id) d.users
      → outside c (record d { users = rows }) ≡ outside c d
  unfolding outside
  outside-users rows h = ap (λ t. record (outside c d) { users = t }) h

  pub outside-departments :
      (rows : List Department)
      → select (λ r. foreign c r.college_id) rows
        ≡ select (λ r. foreign c r.college_id) d.departments
      → outside c (record d { departments = rows }) ≡ outside c d
  unfolding outside
  outside-departments rows h = ap (λ t. record (outside c d) { departments = t }) h

  pub outside-courses :
      (rows : List Course)
      → select (λ r. foreign c r.college_id) rows ≡ select (λ r. foreign c r.college_id) d.courses
      → outside c (record d { courses = rows }) ≡ outside c d
  unfolding outside
  outside-courses rows h = ap (λ t. record (outside c d) { courses = t }) h

  pub outside-sections :
      (rows : List Section)
      → select (λ r. foreign c r.college_id) rows ≡ select (λ r. foreign c r.college_id) d.sections
      → outside c (record d { sections = rows }) ≡ outside c d
  unfolding outside
  outside-sections rows h = ap (λ t. record (outside c d) { sections = t }) h

  pub outside-enrollments :
      (rows : List Enrollment)
      → select (λ r. foreign c r.college_id) rows
        ≡ select (λ r. foreign c r.college_id) d.enrollments
      → outside c (record d { enrollments = rows }) ≡ outside c d
  unfolding outside
  outside-enrollments rows h = ap (λ t. record (outside c d) { enrollments = t }) h

  pub outside-colleges :
      (rows : List College)
      → select (λ r. foreign c r.id) rows ≡ select (λ r. foreign c r.id) d.colleges
      → outside c (record d { colleges = rows }) ≡ outside c d
  unfolding outside
  outside-colleges rows h = ap (λ t. record (outside c d) { colleges = t }) h
