-- ===== src/Reporting/Isolation.antt =====
-- The aggregates of one tenant (server/internal/reporting/updater.go).
use at_app.Base.{
  true, false, Bool, Option, none, some, [], ◌∷◌, ◌++◌, ◌≡◌, ◌⊎◌, inl, inr, refl, arith, ◌&&◌,
  select-insert, select-update_where, update_where,
}
use at_app.Base.Floats.{Floats}
use at_app.Store.{Uuid, Database, AttendanceAggregate}
use at_app.Store.Rls.{admits}
use at_app.Store.Isolation.{foreign, admits-foreign, outside-attendance_aggregates}
use at_app.World.{World, Message}
use at_app.World.Promises
use at_app.World.Promises.{Follows, Follows-bind, promise_rules}
use at_app.World.Isolation.{
  Isolated, Confined, Isolated-IsPromise, Confined-IsPromise, Confined-in_tx,
}
use at_app.Reporting.Aggregates.{
  owned, upsert_aggregate, write_aggregate, publish_alert, update_aggregate,
}

module _ (c : Uuid) where
  abbrev set_counts : AttendanceAggregate → AttendanceAggregate → AttendanceAggregate
  set_counts new a = record a {
    present_count = new.present_count;
    total_sessions = new.total_sessions;
    attendance_pct = new.attendance_pct;
    updated_at = new.updated_at;
  }

  -- Which rows the write leaves: one more, or the tenant's own updated.
  upsert_aggregate_inv :
      (new : AttendanceAggregate) (w : World) (u : Unit {0}) (d : Database)
      → upsert_aggregate new w ≡ some (u, d)
      → ((admits w.env.rls w.tenant new.college_id ≡ true)
          × (d ≡ record (w.db) { attendance_aggregates = w.db.attendance_aggregates ++ new ∷ [] }))
        ⊎ (d ≡ record (w.db) {
          attendance_aggregates =
              update_where
                (λ a.
                  admits w.env.rls w.tenant a.college_id && owned new.student_id new.section_id a)
                (set_counts new)
                w.db.attendance_aggregates;
        })
  unfolding upsert_aggregate
  upsert_aggregate_inv new w u d h = ground arith

  upsert_aggregate-Isolated :
      (new : AttendanceAggregate) (w : World) (u : Unit {0}) (d : Database)
      → upsert_aggregate new w ≡ some (u, d)
      → Isolated c w (record w { db = d })
  upsert_aggregate-Isolated new w u d h = record {
    same_env = refl;
    kept = λ r t. (
      t,
      elim (upsert_aggregate_inv new w u d h) [
        | inl (a, e) ↦ rw e (
            outside-attendance_aggregates c w.db _
              (select-insert _ w.db.attendance_aggregates new (admits-foreign c _ r t a)))
        | inr e ↦ rw e (
            outside-attendance_aggregates c w.db _ (
              select-update_where _ _ (set_counts new) w.db.attendance_aggregates (λ x k.
                touched x (admits w.env.rls w.tenant x.college_id)
                  (owned new.student_id new.section_id x) (admits-foreign c x.college_id r t) k)))
      ],
    );
  }
    where
      touched :
          (x : AttendanceAggregate) (a b : Bool)
          → (a ≡ true → foreign c x.college_id ≡ false)
          → (a && b) ≡ true
          → (foreign c x.college_id ≡ false) × (foreign c x.college_id ≡ false)
      touched x a b h e = ground arith

  publish_alert-Confined :
      (fl : Floats) (m : Option Message) → Follows (Confined c) (publish_alert fl m)
  unfolding publish_alert
  publish_alert-Confined fl none = search (promise_rules, Confined-IsPromise)
  publish_alert-Confined fl (some m) = search (promise_rules, Confined-IsPromise)

  pub update_aggregate-Confined :
      (fl : Floats) (student section : Uuid)
      → Follows (Confined c) (update_aggregate fl c student section)
  unfolding update_aggregate write_aggregate
  update_aggregate-Confined fl student section =
      search
        (
          promise_rules, Confined-in_tx, Promises.Follows-statement, upsert_aggregate-Isolated,
          publish_alert-Confined, Isolated-IsPromise, Confined-IsPromise,
        )
        depth 20
