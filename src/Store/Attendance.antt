-- ===== src/Store/Attendance.antt =====
-- The table attendance_records under its UNIQUE(session_id, student_id) and its policies.
use at_app.Base.{
  true, Bool, ◌≡◌, arith, Option, none, some, List, [], ◌∷◌, ◌++◌, ◌==◌, ◌&&◌, select, first,
  update_where, if◌then◌else◌,
}
use at_app.Store.{Uuid, Database, AttendanceRecord}

-- The rows of one student in one session.
abbrev pub keyed : Uuid → Uuid → AttendanceRecord → Bool
keyed session student r = r.session_id == session && r.student_id == student

-- A row that the policies refuse, or whose key is taken, is an error.
unfoldable pub insert_record :
    (Uuid → Bool) → AttendanceRecord → List AttendanceRecord → Option (Uuid × List AttendanceRecord)
insert_record allowed new rows =
    if allowed new.college_id
    then elim (first (select (keyed new.session_id new.student_id) rows)) [
      | none ↦ some (new.id, rows ++ new ∷ [])
      | some old ↦ none
    ]
    else none

-- INSERT … ON CONFLICT (session_id, student_id) DO UPDATE SET …
unfoldable pub upsert_record :
    (Uuid → Bool)
    → AttendanceRecord
    → (AttendanceRecord → AttendanceRecord)
    → List AttendanceRecord
    → Option (Uuid × List AttendanceRecord)
upsert_record allowed new set rows =
    if allowed new.college_id
    then elim (first (select (keyed new.session_id new.student_id) rows)) [
      | none ↦ some (new.id, rows ++ new ∷ [])
      | some old ↦
          if allowed old.college_id
          then some (
            old.id,
            update_where (λ r. allowed r.college_id && keyed new.session_id new.student_id r) set
                rows,
          )
          else none
    ]
    else none

abbrev pub with_records :
    Database → Option (Uuid × List AttendanceRecord) → Option (Uuid × Database)
with_records d none = none
with_records d (some (id, rows)) = some (id, record d { attendance_records = rows })

pub with_records_inv :
    (d : Database) (r : Option (Uuid × List AttendanceRecord)) (id : Uuid) (d' : Database)
    → with_records d r ≡ some (id, d')
    → (rows : List AttendanceRecord) × (r ≡ some (id, rows))
      × (d' ≡ record d { attendance_records = rows })
with_records_inv d none id d' h = cc
with_records_inv d (some (i, rows)) id d' h = (rows, ground arith, ground arith)

-- A row that went in stands at the end of the table, and its key was free.
pub insert_record_inv :
    (allowed : Uuid → Bool) (new : AttendanceRecord) (rows rows' : List AttendanceRecord)
    (id : Uuid)
    → insert_record allowed new rows ≡ some (id, rows')
    → (id ≡ new.id) × (rows' ≡ rows ++ new ∷ []) × (allowed new.college_id ≡ true)
unfolding insert_record
insert_record_inv allowed new rows rows' id h = ground arith
