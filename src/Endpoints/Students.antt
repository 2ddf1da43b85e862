-- ===== src/Endpoints/Students.antt =====
-- The endpoints of students (server/internal/verification/handler.go, attendance/handler.go).
use at_app.Base.{Option, none, some, List, [], ◌∷◌}
use at_app.Base.Floats.{Float, Floats}
use at_app.Store.{Uuid, Text, Code}
use at_app.Auth.Handlers.{Handler, bad_request, respond, answer_with}
use at_app.Verification.Signals.{Unmarshal}
use at_app.Verification.Checkin.{CheckinResult, submit_checkin}
use at_app.Attendance.Reports.{StudentCourseDto, get_student_courses}
use at_app.Endpoints.Teachers.{identified, with_body}

pub record CheckinRequest : Type 0 where
  pub code : Code
  pub bssid : Text
  pub gps : Option (Float × Float)

-- req.Code == "" || req.Gps == nil, and the coordinates that are there otherwise
unfoldable pub coordinates : CheckinRequest → Option (Float × Float)
coordinates req = elim req.code [ [] ↦ none | b ∷ bs ↦ req.gps ]

module _ (fl : Floats) where
  unfoldable pub checkin_at :
      Unmarshal → Uuid → Uuid → CheckinRequest → Option (Float × Float) → Handler CheckinResult
  unfolding bad_request respond answer_with
  checkin_at unmarshal college student req none =
      bad_request "code and gps coordinates are required"
  checkin_at unmarshal college student req (some (lat, lng)) =
      respond (answer_with 200)
        (submit_checkin fl unmarshal college student req.code req.bssid lat lng)

  unfoldable pub handle_checkin :
      Unmarshal → Uuid → Uuid → Option CheckinRequest → Handler CheckinResult
  unfolding identified with_body coordinates checkin_at
  handle_checkin unmarshal college student body =
      identified college student "unauthorized: missing student context information"
        (with_body body λ req. checkin_at unmarshal college student req (coordinates req))

  unfoldable pub handle_get_courses : Uuid → Uuid → Handler (List StudentCourseDto)
  unfolding identified respond answer_with
  handle_get_courses college student =
      identified college student "unauthorized: missing student context information"
        (respond (answer_with 200) (get_student_courses fl college student))
