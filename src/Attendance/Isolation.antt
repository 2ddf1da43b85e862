-- ===== src/Attendance/Isolation.antt =====
-- An override serves one tenant (server/internal/attendance/service.go).
use at_app.Base.{true, some, [], ◌∷◌, ◌++◌, ◌≡◌, refl, arith, select-insert}
use at_app.Store.{Uuid, Text, Status, Database}
use at_app.Store.Rls.{admits}
use at_app.Store.Attendance.{with_records_inv}
use at_app.Store.Isolation.{
  admits-foreign, upsert_record-foreign, outside-attendance_records, outside-overrides,
}
use at_app.World.{World}
use at_app.World.Promises
use at_app.World.Promises.{Follows, promise_rules}
use at_app.World.Isolation.{
  Isolated, Confined, Isolated-IsPromise, Confined-IsPromise, Confined-in_tx,
}
use at_app.Attendance.Override.{
  audit_row, override_record, insert_override, write_override, submit_override,
}

module _ (c : Uuid) where
  override_record-Isolated :
      (college session student : Uuid) (status : Status) (w : World) (id : Uuid) (d : Database)
      → override_record college session student status w ≡ some (id, d)
      → Isolated c w (record w { db = d })
  unfolding override_record
  override_record-Isolated college session student status w id d h = record {
    same_env = refl;
    kept = λ r t.
        let (rows, u, e) = with_records_inv w.db _ id d h in
        (
          t,
          rw e (
              outside-attendance_records c w.db rows (
                upsert_record-foreign c _ (λ x. admits-foreign c x r t) _ _ (λ x. refl)
                  w.db.attendance_records id rows u)),
        );
  }

  insert_override_inv :
      (college record_id teacher : Uuid) (reason : Text) (w : World) (u : Unit {0}) (d : Database)
      → insert_override college record_id teacher reason w ≡ some (u, d)
      → (admits w.env.rls w.tenant college ≡ true)
        × (d ≡ record (w.db) {
          overrides = w.db.overrides ++ audit_row college record_id teacher reason w ∷ [];
        })
  unfolding insert_override
  insert_override_inv college record_id teacher reason w u d h = ground arith

  insert_override-Isolated :
      (college record_id teacher : Uuid) (reason : Text) (w : World) (u : Unit {0}) (d : Database)
      → insert_override college record_id teacher reason w ≡ some (u, d)
      → Isolated c w (record w { db = d })
  insert_override-Isolated college record_id teacher reason w u d h =
      let (a, e) = insert_override_inv college record_id teacher reason w u d h in
      record {
        same_env = refl;
        kept = λ r t. (
          t,
          rw e (
              outside-overrides c w.db _
                (select-insert _ w.db.overrides _ (admits-foreign c college r t a))),
        );
      }

  pub submit_override-Confined :
      (teacher session student : Uuid) (status : Status) (reason : Text)
      → Follows (Confined c) (submit_override c teacher session student status reason)
  unfolding submit_override write_override
  submit_override-Confined teacher session student status reason =
      search
        (
          promise_rules, Confined-in_tx, Promises.Follows-statement, override_record-Isolated,
          insert_override-Isolated, Isolated-IsPromise, Confined-IsPromise,
        )
        depth 20
