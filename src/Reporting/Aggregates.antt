-- ===== src/Reporting/Aggregates.antt =====
-- `Updater.UpdateAggregate` and the loop of the consumer (server/internal/reporting/updater.go and
-- consumer.go).
use at_app.Base.{
  ℕ, Bool, false, not, Option, none, some, List, [], ◌∷◌, ◌++◌, ◌==◌, ◌&&◌, ltb, if◌then◌else◌,
  select, exists_where, count_where, first, join, update_where,
}
use at_app.Base.Int.{ℤ, pos}
use at_app.Base.Floats.{Float, Floats}
use at_app.Store.{
  Uuid, Time, Database, AttendanceRecord, AttendanceAggregate, is_open, counts_present,
}
use at_app.Store.Rls.{admits}
use at_app.World.{
  World, Message, session_started, session_ended, attendance_recorded, threshold_breached, Svc,
  ◌>>=◌, ◌>>◌, pure, gets, query, statement, or_fail, with_tenant, in_tx, always, publish,
}

-- SELECT COUNT(*) FROM class_sessions WHERE section_id = $1 AND ended_at IS NOT NULL
unfoldable pub ended_sessions : Uuid → Database → ℕ
ended_sessions section d =
    count_where (λ cs. cs.section_id == section && not (is_open cs)) d.class_sessions

-- session_id IN (SELECT id FROM class_sessions WHERE section_id = $2)
abbrev pub of_section : Uuid → Database → AttendanceRecord → Bool
of_section section d r =
    exists_where (λ cs. cs.id == r.session_id && cs.section_id == section) d.class_sessions

-- the present records of a student in the section's sessions, open ones too
unfoldable pub present_records : Uuid → Uuid → Database → ℕ
present_records student section d =
    count_where (λ r. r.student_id == student && of_section section d r && counts_present r.status)
      d.attendance_records

abbrev pub owned : Uuid → Uuid → AttendanceAggregate → Bool
owned student section a = a.student_id == student && a.section_id == section

-- INSERT INTO attendance_aggregates … ON CONFLICT (student_id, section_id) DO UPDATE SET …
unfoldable pub upsert_aggregate : AttendanceAggregate → World → Option (Unit {0} × Database)
upsert_aggregate new w =
    let allowed = admits w.env.rls w.tenant in
    let rows = w.db.attendance_aggregates in
    if allowed new.college_id
    then elim (first (select (owned new.student_id new.section_id) rows)) [
      | none ↦ some (tt, record (w.db) { attendance_aggregates = rows ++ new ∷ [] })
      | some old ↦
          if allowed old.college_id
          then some (
            tt,
            record (w.db) {
              attendance_aggregates =
                  update_where (λ a. allowed a.college_id && owned new.student_id new.section_id a)
                    (λ a. record a {
                      present_count = new.present_count;
                      total_sessions = new.total_sessions;
                      attendance_pct = new.attendance_pct;
                      updated_at = new.updated_at;
                    })
                    rows;
            },
          )
          else none
    ]
    else none

-- SELECT c.attendance_threshold_pct FROM sections s JOIN courses c …; `none` is no row
unfoldable pub find_threshold : Uuid → Database → Option (Option ℤ)
find_threshold section d =
    let mine = select (λ s. s.id == section) d.sections in
    elim (first (join (λ s c. c.id == s.course_id) mine d.courses)) [
      | none ↦ none
      | some (s, c) ↦ some c.attendance_threshold_pct
    ]

pub record Aggregate : Type 0 where
  pub present_count : ℕ
  pub total_sessions : ℕ
  pub pct : Float
  pub threshold : Option ℤ

module _ (fl : Floats) where
  open fl use {mul, div, lt, of_int, of_numeric, to_numeric}

  -- 0 while no session has ended
  unfoldable pub percentage : ℕ → ℕ → Float
  percentage present total =
      if ltb 0 total
      then mul (div (of_int (pos present)) (of_int (pos total))) (of_int (pos 100))
      else of_int (pos 0)

  abbrev pub aggregate_row : Uuid → Uuid → Uuid → ℕ → ℕ → Time → AttendanceAggregate
  aggregate_row college student section present total now = record {
    college_id = college;
    student_id = student;
    section_id = section;
    present_count = present;
    total_sessions = total;
    attendance_pct = to_numeric 2 (percentage present total);
    updated_at = now;
  }

  -- The transaction: the counts, the row and the threshold.
  unfoldable pub write_aggregate : Uuid → Uuid → Uuid → Svc Aggregate
  write_aggregate college student section = do
    with_tenant college
    total ← query (ended_sessions section)
    present ← query (present_records student section)
    now ← gets (λ w. w.now)
    statement (upsert_aggregate (aggregate_row college student section present total now))
    found ← query (find_threshold section)
    threshold ← or_fail found
    pure (record {
      present_count = present;
      total_sessions = total;
      pct = percentage present total;
      threshold = threshold;
    })

  -- thresholdPct.Valid && pct < thresholdPct.Float64 && totalSessions > 0
  unfoldable pub breached : Aggregate → Bool
  breached a = elim a.threshold [
    | none ↦ false
    | some t ↦ lt a.pct (of_numeric 2 t) && ltb 0 a.total_sessions
  ]

  unfoldable pub alert : Uuid → Uuid → Uuid → Aggregate → Option Message
  unfolding breached
  alert college student section a = elim a.threshold [
    | none ↦ none
    | some t ↦
        if breached a
        then some (
            Message.threshold_breached (record {
              student_id = student;
              section_id = section;
              college_id = college;
              current_pct = a.pct;
              threshold_pct = of_numeric 2 t;
            }))
        else none
  ]

  unfoldable pub publish_alert : Option Message → Svc (Unit {0})
  unfolding publish pure
  publish_alert none = pure tt
  publish_alert (some m) = publish m

  unfoldable pub update_aggregate : Uuid → Uuid → Uuid → Svc (Unit {0})
  update_aggregate college student section = do
    a ← in_tx always (write_aggregate college student section)
    publish_alert (alert college student section a)

  -- One message of the topic `attendance.recorded`; an error is only logged.
  unfoldable pub consume : Message → World → World
  unfolding update_aggregate
  consume (attendance_recorded ev) w =
      (update_aggregate ev.college_id ev.student_id ev.section_id w).1
  consume (session_started ev) w = w
  consume (session_ended ev) w = w
  consume (threshold_breached ev) w = w

  -- The messages in the order in which the reader delivers them.
  unfoldable pub consume_all : List Message → World → World
  unfolding consume
  consume_all [] w = w
  consume_all (m ∷ ms) w = consume_all ms (consume m w)
