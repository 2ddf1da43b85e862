-- ===== src/Endpoints/Teachers.antt =====
-- The endpoints of teachers (server/internal/session/handler.go, attendance/handler.go).
use at_app.Base.{ℕ, Bool, false, ◌||◌, Option, none, some, List, ◌==◌, String, if◌then◌else◌}
use at_app.Base.Floats.{Float, Floats}
use at_app.Store.{Uuid, Text, Code, Status}
use at_app.Auth.Handlers.{Handler, refuse, bad_request, respond, answer_with}
use at_app.Session.Start.{StartSessionResult, start_session}
use at_app.Session.Rotate.{get_or_rotate_code}
use at_app.Session.End.{SessionSummary, end_session}
use at_app.Attendance.Override.{OverrideResult, submit_override}
use at_app.Attendance.Reports.{
  RosterStudentDto, SessionHistoryDto, StudentDashboardDto, TeacherSectionDto, get_teacher_sections,
  get_session_roster, get_section_dashboard, get_section_history,
}

-- collegeID == "" || userID == ""
unfoldable pub identified : {A : Type 0} → Uuid → Uuid → String → Handler A → Handler A
unfolding refuse
identified college user message h = if college == 0 || user == 0 then refuse 401 message else h

unfoldable pub with_body : {A B : Type 0} → Option B → (B → Handler A) → Handler A
unfolding bad_request
with_body none h = bad_request "invalid request body"
with_body (some b) h = h b

-- A guard that answers 400.
unfoldable pub required : {A : Type 0} → Bool → String → Handler A → Handler A
unfolding bad_request
required missing message h = if missing then bad_request message else h

pub record StartSessionRequest : Type 0 where
  pub section_id : Uuid
  pub geofence_override : Option (Float × Float × Float)

-- &req.GeofenceOverride.Lat and the like, `nil` without an override
abbrev pub override_part :
    (Float × Float × Float → Float) → Option (Float × Float × Float) → Option Float
override_part f none = none
override_part f (some g) = some (f g)

pub record OverrideRequest : Type 0 where
  pub session_id : Uuid
  pub student_id : Uuid
  pub status : Status
  pub reason : Text

-- req.Status == ""
unfoldable pub is_blank : Status → Bool
is_blank (Status.other t) = t == 0
is_blank _ = false

abbrev pub no_context : String
no_context = "unauthorized: missing token context information"

abbrev pub no_teacher : String
no_teacher = "unauthorized: missing teacher context"

unfoldable pub handle_start_session :
    Floats → Uuid → Uuid → Option StartSessionRequest → Handler StartSessionResult
unfolding identified with_body required respond answer_with
handle_start_session fl college teacher body =
    identified college teacher "unauthorized: missing context info" (
      with_body body λ req. required (req.section_id == 0) "sectionId is required" (
        respond (answer_with 201) (
          start_session fl college teacher req.section_id
            (override_part (λ g. g.0) req.geofence_override)
            (override_part (λ g. g.1) req.geofence_override)
            (override_part (λ g. g.2) req.geofence_override))))

unfoldable pub handle_end_session : Uuid → Uuid → Uuid → Handler SessionSummary
unfolding identified required respond answer_with
handle_end_session college teacher session = identified college teacher no_teacher (
    required (session == 0) "sessionId path parameter is required"
      (respond (answer_with 200) (end_session college teacher session)))

unfoldable pub handle_get_code : Uuid → Uuid → Uuid → Handler (Code × ℕ)
unfolding identified required respond answer_with
handle_get_code college teacher session = identified college teacher no_teacher (
    required (session == 0) "sessionId path parameter is required"
      (respond (answer_with 200) (get_or_rotate_code college teacher session)))

unfoldable pub handle_override : Uuid → Uuid → Option OverrideRequest → Handler OverrideResult
unfolding identified with_body required respond answer_with is_blank
handle_override college teacher body = identified college teacher no_context (
    with_body body λ req.
      required
        (req.session_id == 0 || req.student_id == 0 || is_blank req.status || req.reason == 0)
        "sessionId, studentId, status, and reason are required"
        (respond (answer_with 200)
          (submit_override college teacher req.session_id req.student_id req.status req.reason)))

unfoldable pub handle_get_teacher_sections : Floats → Uuid → Uuid → Handler (List TeacherSectionDto)
unfolding identified respond answer_with
handle_get_teacher_sections fl college teacher =
    identified college teacher no_context
      (respond (answer_with 200) (get_teacher_sections fl college teacher))

-- `collate` is the order that Postgres sorts texts by.
module _ (collate : Text → Text → Bool) where
  unfoldable pub handle_get_session_roster : Uuid → Uuid → Uuid → Handler (List RosterStudentDto)
  unfolding identified required respond answer_with
  handle_get_session_roster college teacher session = identified college teacher no_context (
      required (session == 0) "sessionId path parameter is required"
        (respond (answer_with 200) (get_session_roster collate college session teacher)))

  unfoldable pub handle_get_section_dashboard :
      Floats → Uuid → Uuid → Uuid → Handler (List StudentDashboardDto)
  unfolding identified required respond answer_with
  handle_get_section_dashboard fl college teacher section = identified college teacher no_context (
      required (section == 0) "sectionId path parameter is required"
        (respond (answer_with 200) (get_section_dashboard fl collate college section teacher)))

unfoldable pub handle_get_section_history : Uuid → Uuid → Uuid → Handler (List SessionHistoryDto)
unfolding identified required respond answer_with
handle_get_section_history college teacher section = identified college teacher no_context (
    required (section == 0) "sectionId path parameter is required"
      (respond (answer_with 200) (get_section_history college section teacher)))
