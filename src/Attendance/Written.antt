-- ===== src/Attendance/Written.antt =====
-- What `SubmitOverride` (server/internal/attendance/service.go) leaves behind.
use at_app.Base.{
  Bool, true, some, [], ◌∷◌, ◌++◌, ◌≡◌, refl, sym, ◌∙◌, ap, subst, arith, ◌&&◌, ◌==◌, exists_where,
  ==-refl, not-false,
}
use at_app.Store.{
  Uuid, Text, Database, AttendanceRecord, ClassSession, Status, OverrideRow, is_overridden,
}
use at_app.Store.Attendance.{keyed, with_records_inv}
use at_app.Store.Upsert.{upsert_record-returned}
use at_app.World.{World, always}
use at_app.World.Outcomes.{
  Ends, pure-Ends, gets-Ends, query-Ends, or_reject-Ends, statement-Ends, with_tenant-Ends,
  publish-Ends, reject_if-Ends, in_tx-Ends,
}
use at_app.World.Isolation.{begun}
use at_app.Session.Started.{seen_by}
use at_app.Session.End.{find_taught}
use at_app.Attendance.Override.{
  override_record, override_row, set_status, insert_override, audit_row, write_override,
  submit_override,
}

module _ (c teacher session student : Uuid) (status : Status) (reason : Text)
    (test : Status → Bool) where
  -- A record with that identifier, of the student in the session, whose status passes the test.
  abbrev pub named : Uuid → AttendanceRecord → Bool
  named id r = r.id == id && (keyed session student r && test r.status)

  pub Has : Uuid → Database → Type 0
  Has id d = exists_where (named id) d.attendance_records ≡ true

  override_record-Has :
      (w : World) (id : Uuid) (d : Database)
      → override_record c session student status w ≡ some (id, d)
      → test status ≡ true
      → Has id d × (d.overrides ≡ w.db.overrides)
  unfolding override_record Has
  override_record-Has w id d h e =
      let (rows, u, same) = with_records_inv w.db _ id d h in
      (
        subst (λ y. exists_where (named id) y.attendance_records ≡ true) (sym same)
            (upsert_record-returned _ (override_row c session student status w)
              (set_status status w) _ rows id (λ r. keyed session student r && test r.status) u
              (ground (arith, ==-refl session, ==-refl student, e))
              (λ r k. (ground (arith, k, e), refl))),
        ap (λ y. y.overrides) same,
      )

  insert_override-audit :
      (w : World) (id : Uuid) (u : Unit {0}) (d : Database)
      → insert_override c id teacher reason w ≡ some (u, d)
      → (row : OverrideRow) × (d.overrides ≡ w.db.overrides ++ row ∷ [])
        × (row.attendance_record_id ≡ id)
        × (row.overridden_by ≡ teacher)
        × (row.reason ≡ reason)
        × (d.attendance_records ≡ w.db.attendance_records)
  unfolding insert_override
  insert_override-audit w id u d h =
      (audit_row c id teacher reason w, ground arith, refl, refl, refl, ground arith)

  -- The teacher has the session; the student's record in it, the one that was returned, passes the
  -- test; and the audit has one more row, with that record, the teacher and the reason.
  pub record Overridden (w : World) (record_id : Uuid) (v : World) : Type 0 where
    pub taught : (cs : ClassSession) × (find_taught session teacher (seen_by c w) ≡ some cs)
    pub written : Has record_id v.db
    pub audited :
        (row : OverrideRow) × (v.db.overrides ≡ w.db.overrides ++ row ∷ [])
        × (row.attendance_record_id ≡ record_id)
        × (row.overridden_by ≡ teacher)
        × (row.reason ≡ reason)

  write_override-Ends :
      (w : World)
      → test status ≡ true
      → Ends (λ p v. Overridden w p.0 v) (write_override c teacher session student status reason w)
  unfolding write_override Has
  write_override-Ends w t = with_tenant-Ends _ _ c (
      query-Ends _ _ _ (
        or_reject-Ends _ _ _ _ _ λ cs found. statement-Ends _ _ _ λ id d e.
          statement-Ends _ _ _ λ u d2 f.
            let (row, added, of_record, by, why, records) = insert_override-audit _ id u d2 f in
            pure-Ends _ _ (record {
              taught = (cs, found);
              written =
                  ap (λ y. exists_where (named id) y) records ∙ (override_record-Has _ id d e t).0;
              audited = (
                row,
                added ∙ ap (λ y. y ++ row ∷ []) (override_record-Has _ id d e t).1,
                of_record,
                by,
                why,
              );
            })))

  pub submit_override-Ends :
      (w : World)
      → test status ≡ true
      → Ends
          (λ r v. Overridden w r.record_id v × (is_overridden status ≡ true) × (r.status ≡ status))
          (submit_override c teacher session student status reason w)
  unfolding submit_override
  submit_override-Ends w t = reject_if-Ends _ _ _ _ _ λ valid. in_tx-Ends _ _ _ w (record {
    at = λ p e w' ended.
        let k =
          (write_override-Ends
              (begun always (write_override c teacher session student status reason) w) t).at
            p e in
        gets-Ends _ _ _ (
          publish-Ends _ _ _ λ b sent. pure-Ends _ _ (
            record {
              taught = k.taught;
              written = subst (Has p.0) (sym ended.db) k.written;
              audited =
                  let (row, added, of_record, by, why) = k.audited in
                  (row, ap (λ y. y.overrides) ended.db ∙ added, of_record, by, why);
            },
            not-false _ valid,
            refl,
          ));
  })
