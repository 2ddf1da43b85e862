-- ===== src/Attendance/Reports/Queries.antt =====
-- The five reports of server/internal/attendance/service.go.
use at_app.Base.{
  ℕ, Bool, not, Option, none, some, List, [], ◌==◌, ◌&&◌, map, leb, select, first, join,
  count_where,
}
use at_app.Base.Int.{ℤ, pos}
use at_app.Base.Floats.{Float, Floats}
use at_app.Store.{
  Uuid, Text, Database, User, Course, Section, Enrollment, ClassSession, counts_present,
  counts_absent,
}
use at_app.Store.Attendance.{keyed}
use at_app.World.{Svc, ◌>>=◌, ◌>>◌, query, with_tenant, or_reject, reject_if, in_tx, never}
use at_app.Attendance.Reports.Rows.{
  order_by, Metrics, StudentCourseDto, TeacherSectionDto, pending, recorded, RosterStudentDto,
  StudentDashboardDto, SessionHistoryDto, session_owner, section_owner, with_course, with_user,
}

-- one row of the roster
unfoldable pub roster_row : Uuid → Database → Enrollment × User → RosterStudentDto
roster_row session d (e, u) = elim (first (select (keyed session u.id) d.attendance_records)) [
  | none ↦ record {
    student_id = u.id;
    name = u.name;
    email = u.email;
    status = pending;
    recorded_at = none;
  }
  | some r ↦ record {
    student_id = u.id;
    name = u.name;
    email = u.email;
    status = recorded r.status;
    recorded_at = some r.recorded_at;
  }
]

-- WHERE e.section_id = (SELECT section_id FROM class_sessions WHERE id = $1)
unfoldable pub roster_from :
    (Text → Text → Bool) → Uuid → Database → Option ClassSession → List RosterStudentDto
unfolding roster_row order_by
roster_from collate session d none = []
roster_from collate session d (some cs) =
    let enrolled = select (λ e. e.section_id == cs.section_id) d.enrollments in
    order_by (λ a b. collate a.name b.name) (map (roster_row session d) (with_user enrolled d))

unfoldable pub roster_of : (Text → Text → Bool) → Uuid → Database → List RosterStudentDto
unfolding roster_from
roster_of collate session d =
    roster_from collate session d (first (select (λ cs. cs.id == session) d.class_sessions))

unfoldable pub get_session_roster :
    (Text → Text → Bool) → Uuid → Uuid → Uuid → Svc (List RosterStudentDto)
get_session_roster collate college session teacher = in_tx never do
  with_tenant college
  found ← query (session_owner session)
  owner ← or_reject found 404 "class session not found"
  reject_if (not (owner == teacher)) 403 "unauthorized: you do not teach this section"
  query (roster_of collate session)

-- one group of GROUP BY cs.id, cs.started_at, cs.ended_at
unfoldable pub history_row : Database → ClassSession → SessionHistoryDto
history_row d cs = record {
  session_id = cs.id;
  started_at = cs.started_at;
  ended_at = cs.ended_at;
  present_count =
      count_where (λ r. r.session_id == cs.id && counts_present r.status) d.attendance_records;
  absent_count =
      count_where (λ r. r.session_id == cs.id && counts_absent r.status) d.attendance_records;
}

-- ORDER BY cs.started_at DESC
unfoldable pub history_of : Uuid → Database → List SessionHistoryDto
unfolding history_row order_by
history_of section d =
    order_by (λ a b. leb b.started_at a.started_at)
      (map (history_row d) (select (λ cs. cs.section_id == section) d.class_sessions))

unfoldable pub get_section_history : Uuid → Uuid → Uuid → Svc (List SessionHistoryDto)
get_section_history college section teacher = in_tx never do
  with_tenant college
  found ← query (section_owner section)
  owner ← or_reject found 404 "section not found"
  reject_if (not (owner == teacher)) 403 "unauthorized: you do not teach this section"
  query (history_of section)

module _ (fl : Floats) where
  open fl use {of_numeric}

  -- LEFT JOIN attendance_aggregates, with zeros for a student without a row.
  unfoldable pub metrics_of : Uuid → Uuid → Database → Metrics
  metrics_of student section d =
      let mine =
        select (λ a. a.student_id == student && a.section_id == section) d.attendance_aggregates in
      elim (first mine) [
        | none ↦ record {
          present_count = 0;
          total_sessions = 0;
          attendance_pct = of_numeric 2 (pos 0);
        }
        | some a ↦ record {
          present_count = a.present_count;
          total_sessions = a.total_sessions;
          attendance_pct = of_numeric 2 a.attendance_pct;
        }
      ]

  unfoldable pub course_row : Uuid → Database → Section × Course → StudentCourseDto
  unfolding metrics_of
  course_row student d (s, c) = record {
    section_id = s.id;
    course_name = c.name;
    course_code = c.code;
    metrics = metrics_of student s.id d;
  }

  -- the sections that a student is enrolled in
  unfoldable pub sections_of : Uuid → Database → List Section
  sections_of student d =
      map (λ p. p.1)
        (join (λ e s. s.id == e.section_id) (select (λ e. e.student_id == student) d.enrollments)
          d.sections)

  unfoldable pub get_student_courses : Uuid → Uuid → Svc (List StudentCourseDto)
  get_student_courses college student = in_tx never do
    with_tenant college
    query (λ d. map (course_row student d) (with_course (sections_of student d) d))

  unfoldable pub optional : ℕ → Option ℤ → Option Float
  optional decimals none = none
  optional decimals (some n) = some (of_numeric decimals n)

  unfoldable pub section_row : Section × Course → TeacherSectionDto
  unfolding optional
  section_row (s, c) = record {
    section_id = s.id;
    term = s.term;
    course_name = c.name;
    course_code = c.code;
    classroom_bssid = s.classroom_bssid;
    classroom_geofence_lat = optional 6 s.classroom_geofence_lat;
    classroom_geofence_lng = optional 6 s.classroom_geofence_lng;
    classroom_geofence_radius_m = optional 2 s.classroom_geofence_radius_m;
  }

  unfoldable pub get_teacher_sections : Uuid → Uuid → Svc (List TeacherSectionDto)
  get_teacher_sections college teacher = in_tx never do
    with_tenant college
    query (λ d. map section_row (with_course (select (λ s. s.teacher_id == teacher) d.sections) d))

  unfoldable pub dashboard_row : Database → Enrollment × User → StudentDashboardDto
  unfolding metrics_of
  dashboard_row d (e, u) = record {
    student_id = u.id;
    name = u.name;
    email = u.email;
    metrics = metrics_of u.id e.section_id d;
  }

  unfoldable pub dashboard_of : (Text → Text → Bool) → Uuid → Database → List StudentDashboardDto
  unfolding dashboard_row order_by
  dashboard_of collate section d =
      order_by (λ a b. collate a.name b.name)
        (map (dashboard_row d) (with_user (select (λ e. e.section_id == section) d.enrollments) d))

  unfoldable pub get_section_dashboard :
      (Text → Text → Bool) → Uuid → Uuid → Uuid → Svc (List StudentDashboardDto)
  get_section_dashboard collate college section teacher = in_tx never do
    with_tenant college
    found ← query (section_owner section)
    owner ← or_reject found 404 "section not found"
    reject_if (not (owner == teacher)) 403 "unauthorized: you do not teach this section"
    query (dashboard_of collate section)
