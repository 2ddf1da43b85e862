-- ===== src/Tests/Failures.antt =====
-- Requests that fail in the middle of their transactions.
use at_app.Base.{◌≡◌, ◌⊎◌, refl, none}
use at_app.Store.{Status}
use at_app.World.{Error, ok, err, internal}
use at_app.Session.Rotate.{get_or_rotate_code}
use at_app.Session.End.{SessionSummary, end_session}
use at_app.Session.Summary.{SessionEnded}
use at_app.Verification.Checkin.{submit_checkin}
use at_app.Attendance.Override.{submit_override}
use at_app.Reporting.Aggregates.{update_aggregate}
use at_app.Atomic.{
  submit_checkin-atomic, get_or_rotate_code-atomic, end_session-atomic, submit_override-atomic,
  update_aggregate-atomic,
}
use at_app.Tests.Fixtures.{floats, unmarshal, shown_code, noon, noon_with, failing_from}
use at_app.Tests.Machine.{machine}

submit_checkin-atomic_example :
    (submit_checkin floats unmarshal 1 20 shown_code 60 75 75 (failing_from 9 noon)).1.db ≡ noon.db
unfolding machine
submit_checkin-atomic_example =
    submit_checkin-atomic floats unmarshal 1 20 shown_code 60 75 75 (failing_from 9 noon) internal
      refl

get_or_rotate_code-atomic_example :
    (get_or_rotate_code 1 10 7 (failing_from 5 (noon_with none))).1.db ≡ noon.db
unfolding machine
get_or_rotate_code-atomic_example =
    get_or_rotate_code-atomic 1 10 7 (failing_from 5 (noon_with none)) internal refl

end_session-atomic_example :
    ((e : Error) × ((end_session 1 10 7 (failing_from 8 noon)).0 ≡ err e)
      × ((end_session 1 10 7 (failing_from 8 noon)).1.db ≡ noon.db))
    ⊎ ((s : SessionSummary) × ((end_session 1 10 7 (failing_from 8 noon)).0 ≡ ok s)
        × SessionEnded 1 10 7 (failing_from 8 noon) s (end_session 1 10 7 (failing_from 8 noon)).1)
end_session-atomic_example = end_session-atomic 1 10 7 (failing_from 8 noon)

submit_override-atomic_example :
    (submit_override 1 10 7 21 Status.overridden_absent 99 (failing_from 4 noon)).1.db ≡ noon.db
unfolding machine
submit_override-atomic_example =
    submit_override-atomic 1 10 7 21 Status.overridden_absent 99 (failing_from 4 noon) internal refl

update_aggregate-atomic_example :
    (update_aggregate floats 1 20 5 (failing_from 5 noon)).1.db ≡ noon.db
unfolding machine
update_aggregate-atomic_example =
    update_aggregate-atomic floats 1 20 5 (failing_from 5 noon) internal refl
