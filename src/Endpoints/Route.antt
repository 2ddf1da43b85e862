-- ===== src/Endpoints/Route.antt =====
-- The authenticated routes of server/main.go, and the roles that the handlers' RegisterRoutes ask
-- for. The answer is the status.
use at_app.Base.{ℕ, Bool, Option, none, some, List, [], ◌∷◌}
use at_app.Base.Floats.{Floats}
use at_app.Store.{Uuid, Text}
use at_app.World.{World}
use at_app.Auth.Tokens.{Jwt, Secret}
use at_app.Auth.Accounts.{Bcrypt}
use at_app.Auth.Handlers.{Response, json, error}
use at_app.Verification.Signals.{Unmarshal}
use at_app.Gateway.Access.{Bytes, Gate, passes, answers, Identity, auth_middleware, then_role}
use at_app.Notification.Devices.{handle_register_device_token}
use at_app.Endpoints.Teachers.{
  StartSessionRequest, OverrideRequest, handle_start_session, handle_end_session, handle_get_code,
  handle_override, handle_get_teacher_sections, handle_get_session_roster,
  handle_get_section_dashboard, handle_get_section_history,
}
use at_app.Endpoints.Students.{CheckinRequest, handle_checkin, handle_get_courses}
use at_app.Endpoints.Admins.{
  CreateUserRequest, CreateCourseRequest, CreateSectionRequest, Form, handle_create_user,
  handle_create_department, handle_create_course, handle_create_section, handle_import_users,
  handle_import_enrollments,
}

-- A route with its path parameter and its decoded body.
pub data Route : Type 0 where
  post_users : Option CreateUserRequest → Route
  post_departments : Option Text → Route
  post_courses : Option CreateCourseRequest → Route
  post_sections : Option CreateSectionRequest → Route
  post_import_users post_import_enrollments : Form → Route
  post_sessions : Option StartSessionRequest → Route
  post_end get_code : Uuid → Route
  post_checkin : Option CheckinRequest → Route
  post_overrides : Option OverrideRequest → Route
  get_sections : Route
  get_roster get_dashboard get_history : Uuid → Route
  get_courses : Route
  post_device_token : Option Text → Route
  get_ping : Route

-- RequireRole of the route's group: student is 2, teacher 3 and admin 4; the last two routes have none.
unfoldable pub role_of : Route → Option (List Text)
role_of (post_users b) = some (4 ∷ [])
role_of (post_departments b) = some (4 ∷ [])
role_of (post_courses b) = some (4 ∷ [])
role_of (post_sections b) = some (4 ∷ [])
role_of (post_import_users f) = some (4 ∷ [])
role_of (post_import_enrollments f) = some (4 ∷ [])
role_of (post_checkin b) = some (2 ∷ [])
role_of get_courses = some (2 ∷ [])
role_of (post_device_token b) = none
role_of get_ping = none
role_of _ = some (3 ∷ [])

unfoldable pub status_of : {A : Type 0} → Response A × World → ℕ × World
status_of (json n a, w) = (n, w)
status_of (error n s, w) = (n, w)

unfoldable pub with_roles : Option (List Text) → Gate Identity → Gate Identity
unfolding then_role
with_roles none g = g
with_roles (some allowed) g = then_role allowed g

-- The middleware in front of a handler.
unfoldable pub behind : Gate Identity → (Identity → World → ℕ × World) → World → ℕ × World
behind (answers n s) h w = (n, w)
behind (passes i) h w = h i w

module _ (fl : Floats) (unmarshal : Unmarshal) (bcrypt : Bcrypt)
    (collate : Text → Text → Bool) where
  -- The handler of a route, for the identity in the request's context.
  unfoldable pub dispatch : Route → Identity → World → ℕ × World
  unfolding status_of
  dispatch (post_users b) i w = status_of (handle_create_user bcrypt i.college_id b w)
  dispatch (post_departments b) i w = status_of (handle_create_department i.college_id b w)
  dispatch (post_courses b) i w = status_of (handle_create_course fl i.college_id b w)
  dispatch (post_sections b) i w = status_of (handle_create_section fl i.college_id b w)
  dispatch (post_import_users f) i w = status_of (handle_import_users bcrypt i.college_id f w)
  dispatch (post_import_enrollments f) i w = status_of (handle_import_enrollments i.college_id f w)
  dispatch (post_sessions b) i w = status_of (handle_start_session fl i.college_id i.user_id b w)
  dispatch (post_end session) i w = status_of (handle_end_session i.college_id i.user_id session w)
  dispatch (get_code session) i w = status_of (handle_get_code i.college_id i.user_id session w)
  dispatch (post_checkin b) i w = status_of (handle_checkin fl unmarshal i.college_id i.user_id b w)
  dispatch (post_overrides b) i w = status_of (handle_override i.college_id i.user_id b w)
  dispatch get_sections i w = status_of (handle_get_teacher_sections fl i.college_id i.user_id w)
  dispatch (get_roster session) i w =
      status_of (handle_get_session_roster collate i.college_id i.user_id session w)
  dispatch (get_dashboard section) i w =
      status_of (handle_get_section_dashboard collate fl i.college_id i.user_id section w)
  dispatch (get_history section) i w =
      status_of (handle_get_section_history i.college_id i.user_id section w)
  dispatch get_courses i w = status_of (handle_get_courses fl i.college_id i.user_id w)
  dispatch (post_device_token b) i w =
      status_of (handle_register_device_token i.college_id i.user_id b w)
  dispatch get_ping i w = (200, w)

  -- A request with its Authorization header.
  unfoldable pub answer_request : Jwt → Secret → Bytes → Route → World → ℕ × World
  unfolding behind with_roles role_of dispatch
  answer_request jwt secret header route w =
      behind (with_roles (role_of route) (auth_middleware jwt secret header w.now)) (dispatch route)
        w
