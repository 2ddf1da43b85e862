-- ===== src/Session/End.antt =====
-- `EndSession` (server/internal/session/service.go).
use at_app.Base.{
  ℕ, suc, Bool, true, false, ◌&&◌, Option, none, some, List, [], ◌∷◌, ◌++◌, ◌==◌, map,
  if◌then◌else◌, select, exists_where, count_where, first, join, update_where,
}
use at_app.Store.{
  Uuid, Time, Database, ClassSession, AttendanceRecord, Status, is_present, is_absent,
  is_overridden,
}
use at_app.Store.Rls.{admits}
use at_app.Store.Attendance.{keyed, insert_record, with_records}
use at_app.World.{
  World, ok, Cache, Message, Svc, ◌>>=◌, ◌>>◌, pure, gets, query, statement, new_id, with_tenant,
  or_reject, reject_if, in_tx, always, publish, redis_do,
}

pub record SessionSummary : Type 0 where
  pub present_count : ℕ
  pub absent_count : ℕ
  pub override_count : ℕ

-- The session's section and end, if the teacher has the section.
unfoldable pub find_taught : Uuid → Uuid → Database → Option ClassSession
find_taught session teacher d =
    let mine = select (λ cs. cs.id == session) d.class_sessions in
    elim (first (join (λ cs s. s.id == cs.section_id && s.teacher_id == teacher) mine d.sections)) [
      | none ↦ none
      | some (cs, s) ↦ some cs
    ]

-- `endedAt.Valid`
abbrev pub is_ended : ClassSession → Bool
is_ended cs = elim cs.ended_at [ none ↦ false | some _ ↦ true ]

-- UPDATE class_sessions SET ended_at = $1 WHERE id = $2
unfoldable pub set_ended : Uuid → World → Option (Unit {0} × Database)
set_ended session w = some (
  tt,
  record (w.db) {
    class_sessions =
        update_where (λ cs. admits w.env.rls w.tenant cs.college_id && cs.id == session)
          (λ cs. record cs { ended_at = some w.now }) w.db.class_sessions;
  },
)

-- SELECT student_id FROM enrollments WHERE section_id = $1. The rows come all, or the query fails:
-- a Scan that fails, and an iteration that is cut short, which the method does not ask for, are not
-- modelled.
unfoldable pub enrolled : Uuid → Database → List Uuid
enrolled section d = map (λ e. e.student_id) (select (λ e. e.section_id == section) d.enrollments)

-- SELECT EXISTS(SELECT 1 FROM attendance_records WHERE session_id = $1 AND student_id = $2)
unfoldable pub has_record : Uuid → Uuid → Database → Bool
has_record session student d = exists_where (keyed session student) d.attendance_records

abbrev pub absent_row : Uuid → Uuid → Uuid → World → AttendanceRecord
absent_row college session student w = record {
  id = new_id w;
  college_id = college;
  session_id = session;
  student_id = student;
  status = Status.absent;
  recorded_at = w.now;
  verification_attempt_id = none;
}

-- INSERT INTO attendance_records (…) VALUES (…, 'absent') RETURNING id
unfoldable pub insert_absent : Uuid → Uuid → Uuid → World → Option (Uuid × Database)
insert_absent college session student w = with_records w.db (
    insert_record (admits w.env.rls w.tenant) (absent_row college session student w)
      w.db.attendance_records)

-- One student of the loop: the pair of the new record and the student, if there was none.
unfoldable pub mark_one : Uuid → Uuid → Uuid → Bool → Svc (List (Uuid × Uuid))
mark_one college session student true = pure []
mark_one college session student false = do
  id ← statement (insert_absent college session student)
  pure ((id, student) ∷ [])

-- The loop's body for one student, before the rest of the loop.
unfoldable pub mark_next : Uuid → Uuid → Uuid → Svc (List (Uuid × Uuid)) → Svc (List (Uuid × Uuid))
mark_next college session student loop = do
  exists ← query (has_record session student)
  marked ← mark_one college session student exists
  rest ← loop
  pure (marked ++ rest)

-- for _, studentID := range studentIDs
unfoldable pub mark_absent : Uuid → Uuid → List Uuid → Svc (List (Uuid × Uuid))
unfolding mark_next pure
mark_absent college session [] = pure []
mark_absent college session (student ∷ students) =
    mark_next college session student (mark_absent college session students)

-- SELECT COUNT(*) FROM attendance_records WHERE session_id = $1 AND …
unfoldable pub count_status : (Status → Bool) → Uuid → Database → ℕ
count_status test session d =
    count_where (λ r. r.session_id == session && test r.status) d.attendance_records

pub record Ending : Type 0 where
  pub section_id : Uuid
  pub absentees : List (Uuid × Uuid)
  pub summary : SessionSummary

unfoldable pub summarize : Uuid → Svc SessionSummary
summarize session = do
  present ← query (count_status is_present session)
  absent ← query (count_status is_absent session)
  overridden ← query (count_status is_overridden session)
  pure (record { present_count = present; absent_count = absent; override_count = overridden })

unfoldable pub close_session : Uuid → Uuid → Uuid → Svc Ending
close_session college teacher session = do
  with_tenant college
  found ← query (find_taught session teacher)
  cs ← or_reject found 404 "class session not found or not assigned to you"
  reject_if (is_ended cs) 409 "class session is already ended"
  statement (set_ended session)
  students ← query (enrolled cs.section_id)
  absentees ← mark_absent college session students
  summary ← summarize session
  pure (record { section_id = cs.section_id; absentees = absentees; summary = summary })

-- rdb.Del of both code keys
unfoldable pub del_codes : Uuid → Time → Cache → Cache
del_codes session now c = record c {
  code = λ s. if s == session then none else c.code s;
  prev = λ s. if s == session then none else c.prev s;
}

-- observability.ActiveSessions.Dec()
unfoldable pub count_ended : Svc (Unit {0})
count_ended w = (ok tt, record w { sessions_ended = suc w.sessions_ended })

unfoldable pub publish_one : Uuid → Uuid → Uuid → Uuid → Uuid → Svc (Unit {0})
publish_one college session section record_id student = do
  now ← gets (λ w. w.now)
  publish (
      Message.attendance_recorded (record {
        record_id = record_id;
        session_id = session;
        student_id = student;
        college_id = college;
        section_id = section;
        status = Status.absent;
        recorded_at = now;
      }))

-- The events of the newly absent.
unfoldable pub publish_absent : Uuid → Uuid → Uuid → List (Uuid × Uuid) → Svc (Unit {0})
publish_absent college session section [] = pure tt
publish_absent college session section ((record_id, student) ∷ rest) = do
  publish_one college session section record_id student
  publish_absent college session section rest

unfoldable pub end_session : Uuid → Uuid → Uuid → Svc SessionSummary
end_session college teacher session = do
  e ← in_tx always (close_session college teacher session)
  count_ended
  redis_do (del_codes session)
  publish_absent college session e.section_id e.absentees
  now ← gets (λ w. w.now)
  publish (
      Message.session_ended (record {
        session_id = session;
        section_id = e.section_id;
        college_id = college;
        ended_at = now;
      }))
  pure e.summary
