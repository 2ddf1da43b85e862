-- ===== src/Endpoints/Admins.antt =====
-- The endpoints of administrators (server/internal/admin/handler.go).
use at_app.Base.{ℕ, Bool, false, not, ◌||◌, Option, List, ◌==◌, if◌then◌else◌}
use at_app.Base.Floats.{Float, Floats}
use at_app.Store.{Uuid, Text, Role}
use at_app.Auth.Accounts.{Bcrypt, is_valid_role}
use at_app.Auth.Handlers.{Handler, refuse, bad_request, respond, answer_with}
use at_app.Admin.Create.{create_user, create_department, create_course, create_section}
use at_app.Admin.Import.{Row, bulk_import_users_csv, bulk_import_enrollments_csv}
use at_app.Endpoints.Teachers.{with_body, required}

pub record CreateUserRequest : Type 0 where
  pub role : Role
  pub name : Text
  pub email : Text
  pub password : Text

pub record CreateCourseRequest : Type 0 where
  pub department_id : Uuid
  pub name : Text
  pub code : Text
  pub attendance_threshold_pct : Option Float

pub record CreateSectionRequest : Type 0 where
  pub course_id : Uuid
  pub term : Text
  pub teacher_id : Uuid
  pub classroom_bssid : Option Text
  pub classroom_geofence_lat : Option Float
  pub classroom_geofence_lng : Option Float
  pub classroom_geofence_radius_m : Option Float

-- The form of an import: it may not parse, and may have no file.
pub data Form : Type 0 where
  broken without_file : Form
  with_file : List (Option Row) → Form

-- collegeID == ""
unfoldable pub in_college : {A : Type 0} → Uuid → Handler A → Handler A
unfolding refuse
in_college college h = if college == 0 then refuse 401 "missing college tenant context" else h

-- req.Role == ""
unfoldable pub no_role : Role → Bool
no_role (Role.other t) = t == 0
no_role _ = false

unfoldable pub handle_create_user : Bcrypt → Uuid → Option CreateUserRequest → Handler Uuid
unfolding in_college with_body required respond answer_with no_role is_valid_role
handle_create_user bcrypt college body = in_college college (
    with_body body λ req.
      required (no_role req.role || req.name == 0 || req.email == 0 || req.password == 0)
        "role, name, email, and password are required"
        (required (not (is_valid_role req.role)) "role must be student, teacher, or admin" (
          respond (answer_with 201)
            (create_user bcrypt college req.role req.name req.email req.password))))

unfoldable pub handle_create_department : Uuid → Option Text → Handler Uuid
unfolding in_college with_body required respond answer_with
handle_create_department college body = in_college college (
    with_body body λ name.
      required (name == 0) "name is required"
        (respond (answer_with 201) (create_department college name)))

module _ (fl : Floats) where
  unfoldable pub handle_create_course : Uuid → Option CreateCourseRequest → Handler Uuid
  unfolding in_college with_body required respond answer_with
  handle_create_course college body = in_college college (
      with_body body λ req.
        required (req.department_id == 0 || req.name == 0 || req.code == 0)
          "departmentId, name, and code are required"
          (respond (answer_with 201) (
            create_course fl college req.department_id req.name req.code
              req.attendance_threshold_pct)))

  unfoldable pub handle_create_section : Uuid → Option CreateSectionRequest → Handler Uuid
  unfolding in_college with_body required respond answer_with
  handle_create_section college body = in_college college (
      with_body body λ req.
        required (req.course_id == 0 || req.term == 0 || req.teacher_id == 0)
          "courseId, term, and teacherId are required"
          (respond (answer_with 201) (
            create_section fl college req.course_id req.term req.teacher_id req.classroom_bssid
              req.classroom_geofence_lat req.classroom_geofence_lng
              req.classroom_geofence_radius_m)))

unfoldable pub with_form : {A : Type 0} → Form → (List (Option Row) → Handler A) → Handler A
unfolding bad_request
with_form broken h = bad_request "failed to parse multipart form"
with_form without_file h = bad_request "file parameter is required"
with_form (with_file lines) h = h lines

unfoldable pub handle_import_users : Bcrypt → Uuid → Form → Handler ℕ
unfolding in_college with_form respond answer_with
handle_import_users bcrypt college form =
    in_college college (
      with_form form
        λ lines. respond (answer_with 200) (bulk_import_users_csv bcrypt college lines))

unfoldable pub handle_import_enrollments : Uuid → Form → Handler ℕ
unfolding in_college with_form respond answer_with
handle_import_enrollments college form =
    in_college college (
      with_form form λ lines. respond (answer_with 200) (bulk_import_enrollments_csv college lines))
