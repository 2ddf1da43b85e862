-- ===== src/Attendance/Authorized.antt =====
-- Who may read the reports (server/internal/attendance/service.go).
use at_app.Base.{String, Bool, not, Option, some, List, ◌≡◌, ◌∙◌, ◌==◌, eq_of_==, not-false, ap}
use at_app.Base.Floats.{Floats}
use at_app.Store.{Uuid, Text, Database}
use at_app.World.{World, ok, ◌>>=◌, query, with_tenant, or_reject, reject_if, never}
use at_app.World.Outcomes.{
  Ends, query-Ends, query-ok, with_tenant-Ends, or_reject-Ends, reject_if-Ends,
}
use at_app.World.Atomic.{in_tx-ok}
use at_app.Session.Started.{seen_by}
use at_app.Attendance.Reports.{
  session_owner, section_owner, roster_of, history_of, dashboard_of, RosterStudentDto,
  SessionHistoryDto, StudentDashboardDto, get_session_roster, get_section_history,
  get_section_dashboard,
}

module _ {A : Type 0} (c teacher : Uuid) (owner : Database → Option Uuid) (report : Database → A)
    (message : String) where
  -- A report is the owner's, and reads what the owner's college sees.
  owned_report-Ends :
      (w : World)
      → Ends
          (λ r v. (owner (seen_by c w) ≡ some teacher) × (r ≡ report (seen_by c w)))
          ((with_tenant c >>= λ u. query owner >>= λ found. or_reject found 404 message >>= λ o.
              reject_if (not (o == teacher)) 403 "unauthorized: you do not teach this section"
              >>= λ u2. query report)
            w)
  owned_report-Ends w = with_tenant-Ends _ _ c (
      query-Ends _ _ _ (
        or_reject-Ends _ _ _ _ _ λ o found. reject_if-Ends _ _ _ _ _ λ mine. record {
          at = λ r e.
              (found ∙ ap some (eq_of_== o teacher (not-false _ mine)), (query-ok report _ r e).0);
        }))

-- A teacher who is given the roster of a session teaches its section, as the college's rows say;
-- and the roster is the one of these rows.
pub get_session_roster-authorized :
    (collate : Text → Text → Bool) (c session teacher : Uuid) (w : World)
    (r : List RosterStudentDto)
    → (get_session_roster collate c session teacher w).0 ≡ ok r
    → (session_owner session (seen_by c w) ≡ some teacher)
      × (r ≡ roster_of collate session (seen_by c w))
unfolding get_session_roster
get_session_roster-authorized collate c session teacher w r h =
    let (x, y) = in_tx-ok never _ w r h in
    (owned_report-Ends c teacher (session_owner session) (roster_of collate session)
        "class session not found" _).at
      r x

-- A teacher who is given the history of a section teaches it, as the college's rows say; and the
-- history is the one of these rows.
pub get_section_history-authorized :
    (c section teacher : Uuid) (w : World) (r : List SessionHistoryDto)
    → (get_section_history c section teacher w).0 ≡ ok r
    → (section_owner section (seen_by c w) ≡ some teacher) × (r ≡ history_of section (seen_by c w))
unfolding get_section_history
get_section_history-authorized c section teacher w r h =
    let (x, y) = in_tx-ok never _ w r h in
    (owned_report-Ends c teacher (section_owner section) (history_of section) "section not found"
        _).at
      r x

-- A teacher who is given the dashboard of a section teaches it, as the college's rows say; and the
-- dashboard is the one of these rows.
pub get_section_dashboard-authorized :
    (fl : Floats) (collate : Text → Text → Bool) (c section teacher : Uuid) (w : World)
    (r : List StudentDashboardDto)
    → (get_section_dashboard fl collate c section teacher w).0 ≡ ok r
    → (section_owner section (seen_by c w) ≡ some teacher)
      × (r ≡ dashboard_of fl collate section (seen_by c w))
unfolding get_section_dashboard
get_section_dashboard-authorized fl collate c section teacher w r h =
    let (x, y) = in_tx-ok never _ w r h in
    (owned_report-Ends c teacher (section_owner section) (dashboard_of fl collate section)
        "section not found" _).at
      r x
