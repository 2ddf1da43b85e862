-- ===== src/Tests/Requests.antt =====
-- The theorems on the requests, at the requests of one lecture.
use at_app.Base.{ℕ, true, false, none, some, [], ◌∷◌, ◌≡◌, refl}
use at_app.Store.{Code, Status, accepted, rejected, is_overridden}
use at_app.World.{World}
use at_app.Session.Start.{start_session, StartSessionResult}
use at_app.Session.Started.{Started}
use at_app.Session.End.{SessionSummary}
use at_app.Verification.Checkin.{CheckinResult, submit_checkin}
use at_app.Attendance.Override.{OverrideResult, submit_override}
use at_app.Attendance.Written.{Overridden}
use at_app.Guarantees.Sessions.{start_session-Started}
use at_app.Guarantees.Checkins.{submit_checkin-unreachable, load_policy-positive}
use at_app.Verification.Signals.{Unmarshal, load_policy}
use at_app.Base.Int.{pos, leb_ℤ}
use at_app.Guarantees.Records.{submit_override-Overridden}
use at_app.Tests.Fixtures.{tables, floats, unmarshal, shown_code, noon}
use at_app.Tests.Machine.{machine}

abbrev started : StartSessionResult
started = record {
  session_id = 106;
  current_code = 48 ∷ 48 ∷ 48 ∷ 48 ∷ 49 ∷ 49 ∷ [];
  code_expires_in_seconds = 10;
}

start_session-Started_example :
    Started floats 1 10 6 none none none noon started
      (start_session floats 1 10 6 none none none noon).1
unfolding machine start_session
start_session-Started_example = start_session-Started floats 1 10 6 none none none noon started refl

abbrev rotated_code : Code × ℕ
rotated_code = (48 ∷ 48 ∷ 48 ∷ 48 ∷ 49 ∷ 49 ∷ [], 10)

abbrev two_absent : SessionSummary
two_absent = record { present_count = 0; absent_count = 2; override_count = 0 }

abbrev taken : CheckinResult
taken = record { result = accepted; rejection_reason = none }

abbrev excused : OverrideResult
excused = record { record_id = 104; status = Status.overridden_present }

submit_override-Overridden_example :
    Overridden 1 10 7 21 Status.overridden_present 99 is_overridden noon 104
      (submit_override 1 10 7 21 Status.overridden_present 99 noon).1
    × (is_overridden Status.overridden_present ≡ true)
    × (excused.status ≡ Status.overridden_present)
unfolding machine
submit_override-Overridden_example =
    submit_override-Overridden 1 10 7 21 Status.overridden_present 99 is_overridden noon excused
      refl refl

-- A college whose policy asks for four signals.
abbrev demanding : Unmarshal
demanding raw p = record { n_required = pos 4; max_attempts = pos 3 }

abbrev demanded : World
demanded = record noon {
  db = record tables { colleges = record { id = 1; name = 40; verification_policy = 5 } ∷ [] };
}

abbrev short_of_one : CheckinResult
short_of_one = record {
  result = rejected;
  rejection_reason = some "insufficient validation signals";
}

submit_checkin-unreachable_example :
    (short_of_one.result ≡ rejected)
    × ((submit_checkin floats demanding 1 20 shown_code 60 75 75 demanded).1.db.attendance_records
        ≡ demanded.db.attendance_records)
unfolding machine
submit_checkin-unreachable_example =
    submit_checkin-unreachable floats demanding 1 20 shown_code 60 75 75 demanded short_of_one 5
      refl refl refl

load_policy-positive_example :
    (leb_ℤ (load_policy unmarshal 5).n_required (pos 0) ≡ false)
    × (leb_ℤ (load_policy unmarshal 5).max_attempts (pos 0) ≡ false)
load_policy-positive_example = load_policy-positive unmarshal 5
