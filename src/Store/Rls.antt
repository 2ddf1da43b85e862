-- ===== src/Store/Rls.antt =====
-- The row-level security policies of 000001_init.up.sql: the USING and WITH CHECK clauses compare
-- a row's college with `get_current_college_id()`, which is NULL outside a tenant's transaction.
use at_app.Base.{Bool, true, false, Option, none, some, ◌==◌, select, not}
use at_app.Store.{Uuid, Database}

-- USING (college_id = get_current_college_id()), if the policies bind the role at all
unfoldable pub admits : Bool → Option Uuid → Uuid → Bool
admits false tenant college = true
admits true none college = false
admits true (some current) college = college == current

-- The rows of each table that pass a test of their college.
unfoldable pub restrict : (Uuid → Bool) → Database → Database
restrict p d = record {
  colleges = select (λ r. p r.id) d.colleges;
  users = select (λ r. p r.college_id) d.users;
  departments = select (λ r. p r.college_id) d.departments;
  courses = select (λ r. p r.college_id) d.courses;
  sections = select (λ r. p r.college_id) d.sections;
  enrollments = select (λ r. p r.college_id) d.enrollments;
  class_sessions = select (λ r. p r.college_id) d.class_sessions;
  verification_attempts = select (λ r. p r.college_id) d.verification_attempts;
  attendance_records = select (λ r. p r.college_id) d.attendance_records;
  overrides = select (λ r. p r.college_id) d.overrides;
  attendance_aggregates = select (λ r. p r.college_id) d.attendance_aggregates;
}

unfoldable pub rls_view : Bool → Option Uuid → Database → Database
unfolding admits restrict
rls_view rls tenant d = restrict (admits rls tenant) d

-- The rows of all other colleges.
unfoldable pub outside : Uuid → Database → Database
unfolding restrict
outside c d = restrict (λ college. not (college == c)) d
