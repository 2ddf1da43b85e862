-- ===== src/Reporting/Updated.antt =====
-- What `UpdateAggregate` (server/internal/reporting/updater.go) leaves behind.
use at_app.Base.{
  if◌then◌else◌, ℕ, suc, Bool, true, Option, none, some, [], ◌∷◌, ◌++◌, ◌≡◌, refl, sym, ◌∙◌, ap,
  arith, ◌&&◌, ◌==◌, inl, inr, exists_where, ==-refl, select, first, update_where, Option-cases,
}
use at_app.Base.Floats.{Floats}
use at_app.Store.{Uuid, Database, AttendanceAggregate}
use at_app.Store.Upsert.{exists_where-first, exists_where-updated, exists_where-last}
use at_app.Base.Int.{ℤ}
use at_app.Store.Rls.{admits, rls_view, restrict}
use at_app.World.{World, Message, always}
use at_app.World.Outcomes.{
  Ends, pure-Ends, gets-Ends, query-Ends, or_fail-Ends, statement-Ends, with_tenant-Ends,
  publish-ok, in_tx-Ends,
}
use at_app.World.Isolation.{begun}
use at_app.Session.Started.{seen_by}
use at_app.Reporting.Aggregates.{
  find_threshold, owned, ended_sessions, present_records, upsert_aggregate, Aggregate, percentage,
  write_aggregate, alert, publish_alert, update_aggregate,
}

-- A row with these counts.
abbrev pub counted : Uuid → Uuid → ℕ → ℕ → AttendanceAggregate → Bool
counted student section present total a =
    owned student section a && (a.present_count == present && a.total_sessions == total)

upsert_aggregate-exists :
    (new : AttendanceAggregate) (w : World) (u : Unit {0}) (d : Database)
    → upsert_aggregate new w ≡ some (u, d)
    → exists_where
        (counted new.student_id new.section_id new.present_count new.total_sessions)
        d.attendance_aggregates
      ≡ true
unfolding upsert_aggregate
upsert_aggregate-exists new w u d h =
    let allowed : Uuid → Bool = admits w.env.rls w.tenant in
    let rows = w.db.attendance_aggregates in
    let k = owned new.student_id new.section_id in
    let q = counted new.student_id new.section_id new.present_count new.total_sessions in
    elim (Option-cases (first (select k rows))) [
      | inl n ↦
          let g : d.attendance_aggregates ≡ rows ++ new ∷ [] = ground (arith, h, n) in
          rw g (
            exists_where-last q rows new (
              ground (
                arith,
                ==-refl new.student_id,
                ==-refl new.section_id,
                ==-refl new.present_count,
                ==-refl new.total_sessions,
              )))
      | inr (old, n) ↦
          let a : allowed old.college_id ≡ true = ground (arith, h, n) in
          let p : AttendanceAggregate → Bool = λ r. allowed r.college_id && k r in
          let set : AttendanceAggregate → AttendanceAggregate = λ r. record r {
            present_count = new.present_count;
            total_sessions = new.total_sessions;
            attendance_pct = new.attendance_pct;
            updated_at = new.updated_at;
          } in
          let g : d.attendance_aggregates ≡ update_where p set rows = ground (arith, h, n, a) in
          rw g (
            exists_where-updated q p set rows
              (λ r t. ground (
                arith,
                t,
                ==-refl new.student_id,
                ==-refl new.section_id,
                ==-refl new.present_count,
                ==-refl new.total_sessions,
              ))
              (exists_where-first (λ r. allowed r.college_id) k rows old n a))
    ]

module _ (fl : Floats) (c student section : Uuid) where
  -- The student's row of the section holds the two counts, and the threshold is the course's.
  pub record Refreshed (w : World) (a : Aggregate) (v : World) : Type 0 where
    pub total : a.total_sessions ≡ ended_sessions section (seen_by c w)
    pub present : a.present_count ≡ present_records student section (seen_by c w)
    pub pct : a.pct ≡ percentage fl a.present_count a.total_sessions
    pub threshold : find_threshold section (seen_by c w) ≡ some a.threshold
    pub row :
        exists_where
          (counted student section a.present_count a.total_sessions)
          v.db.attendance_aggregates
        ≡ true

  -- The upsert leaves the course's threshold as it was.
  threshold_kept :
      (w : World) (n : ℕ) (new : AttendanceAggregate) (u : Unit {0}) (d : Database)
      (threshold : Option ℤ)
      → upsert_aggregate new (record w { calls = n; tenant = some c }) ≡ some (u, d)
      → find_threshold section (rls_view w.env.rls (some c) d) ≡ some threshold
      → find_threshold section (seen_by c w) ≡ some threshold
  unfolding upsert_aggregate rls_view restrict find_threshold
  threshold_kept w n new u d threshold h e =
      let g : d ≡ record (w.db) { attendance_aggregates = d.attendance_aggregates } =
        ground (arith, h) in
      ap (λ y. find_threshold section (rls_view w.env.rls (some c) y)) (sym g) ∙ e

  write_aggregate-Ends :
      (w : World)
      → Ends
          (λ a v. Refreshed w a v × (v.bus ≡ w.bus) × (v.env ≡ w.env))
          (write_aggregate fl c student section w)
  unfolding write_aggregate
  write_aggregate-Ends w = with_tenant-Ends _ _ c (
      query-Ends _ _ _ (
        query-Ends _ _ _ (
          gets-Ends _ _ _ (
            statement-Ends _ _ _ λ u d e. query-Ends _ _ _ (
              or_fail-Ends _ _ _ λ threshold found. pure-Ends _ _ (
                record {
                  total = refl;
                  present = refl;
                  pct = refl;
                  threshold = threshold_kept w _ _ u d threshold e found;
                  row = upsert_aggregate-exists _ _ u d e;
                },
                refl,
                refl,
              ))))))

  -- An alert goes out unless its one call fails, and nothing goes out without an alert.
  pub Told : World → Option Message → World → Type 0
  Told w none v = v.bus ≡ w.bus
  Told w (some m) v = (n : ℕ) × (v.bus ≡ (if w.env.down n then w.bus else w.bus ++ m ∷ []))

  Refreshed-same : (w v x : World) (a : Aggregate) → Refreshed w a v → x.db ≡ v.db → Refreshed w a x
  Refreshed-same w v x a k d = record {
    total = k.total;
    present = k.present;
    pct = k.pct;
    threshold = k.threshold;
    row =
        ap
          (λ y.
            exists_where (counted student section a.present_count a.total_sessions)
              y.attendance_aggregates)
          d
        ∙ k.row;
  }

  sent-moved :
      (n : ℕ) (w w' : World) (m : Message)
      → w'.bus ≡ w.bus
      → w'.env ≡ w.env
      → (if w'.env.down n then w'.bus else w'.bus ++ m ∷ [])
        ≡ (if w.env.down n then w.bus else w.bus ++ m ∷ [])
  sent-moved n w w' m b ee = rw (b, ee)

  publish_alert-Ends :
      (w w' v : World) (a : Aggregate) (m : Option Message)
      → Refreshed w a v
      → w'.db ≡ v.db
      → w'.bus ≡ w.bus
      → w'.env ≡ w.env
      → Ends (λ u x. Refreshed w a x × Told w m x) (publish_alert fl m w')
  unfolding publish_alert Told
  publish_alert-Ends w w' v a none k d b ee = pure-Ends _ _ (Refreshed-same w v w' a k d, b)
  publish_alert-Ends w w' v a (some m) k d b ee = record {
    at = λ u e.
        let x = publish-ok m w' u e in
        (
          Refreshed-same w v _ a k (ap (λ y. y.db) x ∙ d),
          (w'.calls, ap (λ y. y.bus) x ∙ sent-moved w'.calls w w' m b ee),
        );
  }

  -- The aggregate is written, and its alert sent if it has one.
  pub record AggregateUpdated (w v : World) : Type 0 where
    pub aggregate : Aggregate
    pub refreshed : Refreshed w aggregate v
    pub alerted : Told w (alert fl c student section aggregate) v

  Refreshed-entered :
      (w : World) (a : Aggregate) (v : World)
      → Refreshed (record w { calls = suc w.calls; tenant = none }) a v
      → Refreshed w a v
  Refreshed-entered w a v k = record {
    total = k.total;
    present = k.present;
    pct = k.pct;
    threshold = k.threshold;
    row = k.row;
  }

  pub update_aggregate-Ends :
      (w : World) → Ends (λ u v. AggregateUpdated w v) (update_aggregate fl c student section w)
  unfolding update_aggregate
  update_aggregate-Ends w =
      let body = write_aggregate fl c student section in
      in_tx-Ends always body _ w (record {
        at = λ a e w' ended.
            let (k, quiet, same) = (write_aggregate-Ends (begun always body w)).at a e in
            let sent =
              publish_alert-Ends w w' _ a (alert fl c student section a)
                (Refreshed-entered w a (body (begun always body w)).1 k) ended.db
                (ended.bus ∙ quiet) (ended.env ∙ same) in
            record {
              at = λ u f.
                  let (x, y) = sent.at u f in record { aggregate = a; refreshed = x; alerted = y };
            };
      })
