-- ===== src/Attendance/Override.antt =====
-- `SubmitOverride` (server/internal/attendance/service.go).
use at_app.Base.{not, Option, none, some, [], ◌∷◌, ◌++◌, if◌then◌else◌}
use at_app.Store.{Uuid, Text, Database, AttendanceRecord, OverrideRow, Status, is_overridden}
use at_app.Store.Rls.{admits}
use at_app.Store.Attendance.{upsert_record, with_records}
use at_app.World.{
  World, Message, Svc, ◌>>=◌, ◌>>◌, pure, gets, query, statement, new_id, with_tenant, or_reject,
  reject_if, in_tx, always, publish,
}
use at_app.Session.End.{find_taught}

pub record OverrideResult : Type 0 where
  pub record_id : Uuid
  pub status : Status

abbrev pub override_row : Uuid → Uuid → Uuid → Status → World → AttendanceRecord
override_row college session student status w = record {
  id = new_id w;
  college_id = college;
  session_id = session;
  student_id = student;
  status = status;
  recorded_at = w.now;
  verification_attempt_id = none;
}

-- DO UPDATE SET status = EXCLUDED.status, recorded_at = NOW()
abbrev pub set_status : Status → World → AttendanceRecord → AttendanceRecord
set_status status w r = record r { status = status; recorded_at = w.now }

-- INSERT INTO attendance_records … ON CONFLICT … RETURNING id
unfoldable pub override_record : Uuid → Uuid → Uuid → Status → World → Option (Uuid × Database)
override_record college session student status w = with_records w.db (
    upsert_record (admits w.env.rls w.tenant) (override_row college session student status w)
      (set_status status w) w.db.attendance_records)

abbrev pub audit_row : Uuid → Uuid → Uuid → Text → World → OverrideRow
audit_row college record_id teacher reason w = record {
  id = new_id w;
  college_id = college;
  attendance_record_id = record_id;
  overridden_by = teacher;
  reason = reason;
  created_at = w.now;
}

-- INSERT INTO overrides
unfoldable pub insert_override : Uuid → Uuid → Uuid → Text → World → Option (Unit {0} × Database)
insert_override college record_id teacher reason w =
    if admits w.env.rls w.tenant college
    then some (
      tt,
      record (w.db) {
        overrides = w.db.overrides ++ audit_row college record_id teacher reason w ∷ [];
      },
    )
    else none

-- The transaction: the record and its audit row.
unfoldable pub write_override : Uuid → Uuid → Uuid → Uuid → Status → Text → Svc (Uuid × Uuid)
write_override college teacher session student status reason = do
  with_tenant college
  found ← query (find_taught session teacher)
  cs ←
      or_reject found 404
        "class session not found or you are not authorized to override attendance for it"
  record_id ← statement (override_record college session student status)
  statement (insert_override college record_id teacher reason)
  pure (record_id, cs.section_id)

unfoldable pub submit_override : Uuid → Uuid → Uuid → Uuid → Status → Text → Svc OverrideResult
submit_override college teacher session student status reason = do
  reject_if (not (is_overridden status)) 400
      "invalid status: must be overridden_present or overridden_absent"
  (record_id, section) ← in_tx always (write_override college teacher session student status reason)
  now ← gets (λ w. w.now)
  publish (
      Message.attendance_recorded (record {
        record_id = record_id;
        session_id = session;
        student_id = student;
        college_id = college;
        section_id = section;
        status = status;
        recorded_at = now;
      }))
  pure (record { record_id = record_id; status = status })
