-- ===== src/Endpoints/Dispatched.antt =====
-- Each route stays in the college of the identity that its handler runs for.
use at_app.Base.{refl, ℕ, Bool, Option, none, some}
use at_app.Base.Floats.{Floats}
use at_app.Store.{Uuid, Text}
use at_app.World.{World}
use at_app.World.Promises.{Follows, promise_rules}
use at_app.World.Isolation.{Confined, Isolated-IsPromise, Confined-in_tx}
use at_app.Auth.Accounts.{Bcrypt}
use at_app.Auth.Handlers.{answer_with}
use at_app.Verification.Signals.{Unmarshal}
use at_app.Verification.Isolation.{submit_checkin-Confined}
use at_app.Session.Confined.{
  start_session-Confined, get_or_rotate_code-Confined, end_session-Confined,
}
use at_app.Attendance.Isolation.{submit_override-Confined}
use at_app.Attendance.Reports.{
  get_student_courses, get_teacher_sections, get_session_roster, get_section_dashboard,
  get_section_history,
}
use at_app.Admin.Confined.{
  create_user-Confined, create_department-Confined, create_course-Confined, create_section-Confined,
  bulk_import_users_csv-Confined, bulk_import_enrollments_csv-Confined,
}
use at_app.Notification.Devices.{handle_register_device_token, register_device_token-Confined}
use at_app.Gateway.Access.{Identity}
use at_app.Endpoints.Teachers.{
  handle_start_session, handle_end_session, handle_get_code, handle_override,
  handle_get_teacher_sections, handle_get_session_roster, handle_get_section_dashboard,
  handle_get_section_history,
}
use at_app.Endpoints.Students.{CheckinRequest, checkin_at, handle_checkin, handle_get_courses}
use at_app.Endpoints.Admins.{
  handle_create_user, handle_create_department, handle_create_course, handle_create_section,
  handle_import_users, handle_import_enrollments,
}
use at_app.Endpoints.Route.{
  Route, post_users, post_departments, post_courses, post_sections, post_import_users,
  post_import_enrollments, post_sessions, post_end, get_code, post_checkin, post_overrides,
  get_sections, get_roster, get_dashboard, get_history, get_courses, post_device_token, get_ping,
  dispatch,
}
use at_app.Endpoints.Confined.{
  Stays, bad_request-Stays, refuse-Stays, respond-Stays, if-Stays, identified-Stays,
  in_college-Stays, required-Stays, with_body-Stays, with_form-Stays, status_of-Confined,
}

module _ (c : Uuid) (fl : Floats) where
  get_student_courses-Confined :
      (student : Uuid) → Follows (Confined c) (get_student_courses fl c student)
  unfolding get_student_courses
  get_student_courses-Confined student =
      search (promise_rules, Confined-in_tx, Isolated-IsPromise) depth 12

  get_teacher_sections-Confined :
      (teacher : Uuid) → Follows (Confined c) (get_teacher_sections fl c teacher)
  unfolding get_teacher_sections
  get_teacher_sections-Confined teacher =
      search (promise_rules, Confined-in_tx, Isolated-IsPromise) depth 12

  get_section_history-Confined :
      (section teacher : Uuid) → Follows (Confined c) (get_section_history c section teacher)
  unfolding get_section_history
  get_section_history-Confined section teacher =
      search (promise_rules, Confined-in_tx, Isolated-IsPromise) depth 12

  module _ (collate : Text → Text → Bool) where
    get_session_roster-Confined :
        (session teacher : Uuid)
        → Follows (Confined c) (get_session_roster collate c session teacher)
    unfolding get_session_roster
    get_session_roster-Confined session teacher =
        search (promise_rules, Confined-in_tx, Isolated-IsPromise) depth 12

    get_section_dashboard-Confined :
        (section teacher : Uuid)
        → Follows (Confined c) (get_section_dashboard fl collate c section teacher)
    unfolding get_section_dashboard
    get_section_dashboard-Confined section teacher =
        search (promise_rules, Confined-in_tx, Isolated-IsPromise) depth 12

  checkin_at-Stays :
      (unmarshal : Unmarshal) (student : Uuid) (req : CheckinRequest) (o : Option (ℕ × ℕ))
      → Stays c (checkin_at fl unmarshal c student req o)
  unfolding checkin_at
  checkin_at-Stays unmarshal student req none = bad_request-Stays c _
  checkin_at-Stays unmarshal student req (some (lat, lng)) =
      respond-Stays c (answer_with 200) _
        (submit_checkin-Confined fl unmarshal c student req.code req.bssid lat lng)

ruleset stays_rules = (
  bad_request-Stays, refuse-Stays, respond-Stays, if-Stays, identified-Stays, in_college-Stays,
  required-Stays, with_body-Stays, with_form-Stays, checkin_at-Stays, status_of-Confined,
  submit_checkin-Confined, start_session-Confined, get_or_rotate_code-Confined,
  end_session-Confined, submit_override-Confined, create_user-Confined, create_department-Confined,
  create_course-Confined, create_section-Confined, bulk_import_users_csv-Confined,
  bulk_import_enrollments_csv-Confined, register_device_token-Confined,
  get_student_courses-Confined, get_teacher_sections-Confined, get_section_history-Confined,
  get_session_roster-Confined, get_section_dashboard-Confined,
)

module _ (fl : Floats) (unmarshal : Unmarshal) (bcrypt : Bcrypt)
    (collate : Text → Text → Bool) where
  pub dispatch-Confined :
      (route : Route) (i : Identity) (w : World)
      → Confined i.college_id w (dispatch fl unmarshal bcrypt collate route i w).1
  unfolding dispatch handle_create_user handle_create_department handle_create_course
      handle_create_section handle_import_users handle_import_enrollments handle_start_session
      handle_end_session handle_get_code handle_checkin handle_override handle_get_teacher_sections
      handle_get_session_roster handle_get_section_dashboard handle_get_section_history
      handle_get_courses handle_register_device_token
  dispatch-Confined (post_users b) i w =
      status_of-Confined i.college_id (handle_create_user bcrypt i.college_id b) w
        (search stays_rules depth 12)
  dispatch-Confined (post_departments b) i w =
      status_of-Confined i.college_id (handle_create_department i.college_id b) w
        (search stays_rules depth 12)
  dispatch-Confined (post_courses b) i w =
      status_of-Confined i.college_id (handle_create_course fl i.college_id b) w
        (search stays_rules depth 12)
  dispatch-Confined (post_sections b) i w =
      status_of-Confined i.college_id (handle_create_section fl i.college_id b) w
        (search stays_rules depth 12)
  dispatch-Confined (post_import_users f) i w =
      status_of-Confined i.college_id (handle_import_users bcrypt i.college_id f) w
        (search stays_rules depth 12)
  dispatch-Confined (post_import_enrollments f) i w =
      status_of-Confined i.college_id (handle_import_enrollments i.college_id f) w
        (search stays_rules depth 12)
  dispatch-Confined (post_sessions b) i w =
      status_of-Confined i.college_id (handle_start_session fl i.college_id i.user_id b) w
        (search stays_rules depth 12)
  dispatch-Confined (post_end session) i w =
      status_of-Confined i.college_id (handle_end_session i.college_id i.user_id session) w
        (search stays_rules depth 12)
  dispatch-Confined (get_code session) i w =
      status_of-Confined i.college_id (handle_get_code i.college_id i.user_id session) w
        (search stays_rules depth 12)
  dispatch-Confined (post_checkin b) i w =
      status_of-Confined i.college_id (handle_checkin fl unmarshal i.college_id i.user_id b) w
        (search stays_rules depth 12)
  dispatch-Confined (post_overrides b) i w =
      status_of-Confined i.college_id (handle_override i.college_id i.user_id b) w
        (search stays_rules depth 12)
  dispatch-Confined get_sections i w =
      status_of-Confined i.college_id (handle_get_teacher_sections fl i.college_id i.user_id) w
        (search stays_rules depth 12)
  dispatch-Confined (get_roster session) i w =
      status_of-Confined i.college_id
        (handle_get_session_roster collate i.college_id i.user_id session) w
        (search stays_rules depth 12)
  dispatch-Confined (get_dashboard section) i w =
      status_of-Confined i.college_id
        (handle_get_section_dashboard collate fl i.college_id i.user_id section) w
        (search stays_rules depth 12)
  dispatch-Confined (get_history section) i w =
      status_of-Confined i.college_id (handle_get_section_history i.college_id i.user_id section) w
        (search stays_rules depth 12)
  dispatch-Confined get_courses i w =
      status_of-Confined i.college_id (handle_get_courses fl i.college_id i.user_id) w
        (search stays_rules depth 12)
  dispatch-Confined (post_device_token none) i w =
      status_of-Confined i.college_id (handle_register_device_token i.college_id i.user_id none) w
        (search stays_rules depth 12)
  dispatch-Confined (post_device_token (some b)) i w =
      status_of-Confined i.college_id (handle_register_device_token i.college_id i.user_id (some b))
        w (search stays_rules depth 12)
  dispatch-Confined get_ping i w = record { same_env = refl; kept = λ r. refl }
