-- ===== src/Tests/Reports.antt =====
-- The reports and the pruning, at the lecture.
use at_app.Base.{
  ℕ, ◌-◌, ◌==◌, Bool, true, false, none, some, List, [], ◌∷◌, ◌≡◌, refl, All, exists_where, select,
}
use at_app.Base.Int.{pos}
use at_app.Store.{Uuid, accepted, VerificationAttempt}
use at_app.World.{World}
use at_app.Verification.Prune.{
  is_set, is_stale, prune_rows, prune_raw_verification_data, prune_blind, prune_complete,
}
use at_app.Attendance.Reports.{
  pending, RosterStudentDto, SessionHistoryDto, StudentDashboardDto, session_owner, section_owner,
  roster_of, history_of, history_row, dashboard_of, dashboard_row, metrics_of, with_user, insert_by,
  order_by, get_session_roster, get_section_history, get_section_dashboard,
}
use at_app.Attendance.Authorized.{
  get_session_roster-authorized, get_section_history-authorized, get_section_dashboard-authorized,
}
use at_app.Attendance.Roster.{roster_of-enrolled}
use at_app.Session.Started.{seen_by}
use at_app.Tests.Fixtures.{floats, noon, lecture, tables}
use at_app.Tests.Machine.{machine}

abbrev attempt : VerificationAttempt
attempt = record {
  id = 95;
  college_id = 1;
  session_id = 7;
  student_id = 20;
  submitted_at = 100;
  code_match = true;
  bssid_match = true;
  geofence_match = true;
  raw_bssid = some 60;
  raw_gps_lat = some (pos 5);
  raw_gps_lng = none;
  result = accepted;
  rejection_reason = none;
}

abbrev attempted : Bool → World
attempted rls = record noon {
  env = record (noon.env) { rls = rls };
  db = record tables { verification_attempts = attempt ∷ [] };
}

abbrev no_rows : ℕ
no_rows = 0

prune_blind_example :
    (no_rows ≡ 0)
    × ((prune_raw_verification_data 3600 (attempted true)).1.db.verification_attempts
        ≡ (attempted true).db.verification_attempts)
unfolding machine prune_raw_verification_data prune_rows is_stale is_set
prune_blind_example = prune_blind 3600 (attempted true) no_rows refl refl

prune_complete_example :
    All
      (λ a. is_stale ((attempted false).now - 3600) a ≡ false)
      (prune_raw_verification_data 3600 (attempted false)).1.db.verification_attempts
unfolding machine prune_raw_verification_data prune_rows is_stale is_set
prune_complete_example = prune_complete 3600 (attempted false) 1 refl refl

abbrev waiting : Uuid → RosterStudentDto
waiting id = record { student_id = id; name = 70; email = id; status = pending; recorded_at = none }

get_session_roster-authorized_example :
    (session_owner 7 (seen_by 1 noon) ≡ some 10)
    × (waiting 20 ∷ waiting 21 ∷ [] ≡ roster_of (λ a b. true) 7 (seen_by 1 noon))
unfolding machine get_session_roster session_owner roster_of
get_session_roster-authorized_example =
    get_session_roster-authorized (λ a b. true) 1 7 10 noon (waiting 20 ∷ waiting 21 ∷ []) refl

abbrev history : List SessionHistoryDto
history =
    record {
      session_id = 7;
      started_at = 43000;
      ended_at = none;
      present_count = 0;
      absent_count = 0;
    }
    ∷ []

get_section_history-authorized_example :
    (section_owner 5 (seen_by 1 noon) ≡ some 10) × (history ≡ history_of 5 (seen_by 1 noon))
unfolding machine get_section_history section_owner history_of history_row order_by insert_by
get_section_history-authorized_example = get_section_history-authorized 1 5 10 noon history refl

abbrev standing : Uuid → StudentDashboardDto
standing id = record {
  student_id = id;
  name = 70;
  email = id;
  metrics = record { present_count = 0; total_sessions = 0; attendance_pct = 75 };
}

get_section_dashboard-authorized_example :
    (section_owner 5 (seen_by 1 noon) ≡ some 10)
    × (standing 20 ∷ standing 21 ∷ [] ≡ dashboard_of floats (λ a b. true) 5 (seen_by 1 noon))
unfolding machine get_section_dashboard section_owner dashboard_of dashboard_row metrics_of order_by
    insert_by
get_section_dashboard-authorized_example =
    get_section_dashboard-authorized floats (λ a b. true) 1 5 10 noon
      (standing 20 ∷ standing 21 ∷ []) refl

roster_of-enrolled_example :
    exists_where (λ r. r.student_id == 21) (roster_of (λ a b. true) 7 tables)
    ≡ exists_where
        (λ x. (x.1).id == 21)
        (with_user (select (λ e. e.section_id == lecture.section_id) tables.enrollments) tables)
unfolding machine
roster_of-enrolled_example = roster_of-enrolled (λ a b. true) 7 21 tables lecture refl
