-- ===== src/Guarantees/Records.antt =====
-- Overrides (server/internal/attendance/service.go) and aggregates
-- (server/internal/reporting/updater.go).
use at_app.Base.{Bool, true, ◌≡◌}
use at_app.Base.Floats.{Floats}
use at_app.Store.{Uuid, Text, Status, is_overridden}
use at_app.World.{World, ok}
use at_app.Attendance.Override.{OverrideResult, submit_override}
use at_app.Attendance.Written.{Overridden, submit_override-Ends}

-- When `SubmitOverride` returns a result: the session is of a section of the teacher's; the status
-- is one of the two overrides, and the result's; the record with the returned identifier is the
-- student's in the session, and its status passes a test that this one passes; and one audit row is
-- new, which names that record, the teacher and the reason.
pub submit_override-Overridden :
    (c teacher session student : Uuid) (status : Status) (reason : Text) (test : Status → Bool)
    (w : World) (r : OverrideResult)
    → test status ≡ true
    → (submit_override c teacher session student status reason w).0 ≡ ok r
    → Overridden c teacher session student status reason test w r.record_id
        (submit_override c teacher session student status reason w).1
      × (is_overridden status ≡ true)
      × (r.status ≡ status)
submit_override-Overridden c teacher session student status reason test w r t h =
    (submit_override-Ends c teacher session student status reason test w t).at r h
