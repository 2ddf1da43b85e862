-- ===== src/Verification/Isolation.antt =====
-- `SubmitCheckin` (server/internal/verification/service.go) serves one tenant.
use at_app.Base.{true, some, String, ◌≡◌, refl, arith, select-insert, [], ◌∷◌, ◌++◌}
use at_app.Base.Floats.{Float, Floats}
use at_app.Store.{
  Uuid, Text, Code, Database, Section, ClassSession, VerificationAttempt, CheckinOutcome, accepted,
  rejected,
}
use at_app.Store.Rls.{admits}
use at_app.Store.Attendance.{with_records_inv}
use at_app.Store.Isolation.{
  admits-foreign, upsert_record-foreign, outside-verification_attempts, outside-attendance_records,
}
use at_app.World.{World, new_id}
use at_app.World.Promises
use at_app.World.Promises.{IsPromise, Follows, Follows-bind, promise_rules}
use at_app.World.Isolation.{
  Isolated, Confined, Isolated-IsPromise, Confined-IsPromise, Confined-in_tx,
}
use at_app.Verification.Signals.{Unmarshal, Policy, Signals}
use at_app.Verification.Checkin.{
  Attempt, early, logged, commits, count_checkin, insert_attempt, record_present, record_outcome,
  turn_away, judge, log_attempt, attempt_checkin, settle, submit_checkin,
}

insert_attempt_inv :
    (row : Uuid → VerificationAttempt) (w : World) (id : Uuid) (d : Database)
    → insert_attempt row w ≡ some (id, d)
    → (admits w.env.rls w.tenant (row (new_id w)).college_id ≡ true)
      × (d ≡ record (w.db) {
        verification_attempts = w.db.verification_attempts ++ row (new_id w) ∷ [];
      })
unfolding insert_attempt
insert_attempt_inv row w id d h = ground arith

module _ (c : Uuid) where
  insert_attempt-Isolated :
      (row : Uuid → VerificationAttempt) (w : World) (id : Uuid) (d : Database)
      → insert_attempt row w ≡ some (id, d)
      → Isolated c w (record w { db = d })
  insert_attempt-Isolated row w id d h = record {
    same_env = refl;
    kept = λ r t.
        let (a, e) = insert_attempt_inv row w id d h in
        (
          t,
          rw e (
              outside-verification_attempts c w.db _ (
                select-insert _ w.db.verification_attempts (row (new_id w))
                  (admits-foreign c _ r t a))),
        );
  }

  record_present-Isolated :
      (college session student attempt : Uuid) (w : World) (id : Uuid) (d : Database)
      → record_present college session student attempt w ≡ some (id, d)
      → Isolated c w (record w { db = d })
  unfolding record_present
  record_present-Isolated college session student attempt w id d h = record {
    same_env = refl;
    kept = λ r t.
        let (rows, u, e) = with_records_inv w.db _ id d h in
        (
          t,
          rw e (
              outside-attendance_records c w.db rows (
                upsert_record-foreign c _ (λ x. admits-foreign c x r t) _ _ (λ x. refl)
                  w.db.attendance_records id rows u)),
        );
  }

  count_checkin-Isolated : (o : CheckinOutcome) → Follows (Isolated c) (count_checkin o)
  unfolding count_checkin
  count_checkin-Isolated accepted =
      Promises.Follows-quiet (Isolated-IsPromise c) _ (λ w. ground arith)
  count_checkin-Isolated rejected =
      Promises.Follows-quiet (Isolated-IsPromise c) _ (λ w. ground arith)

  record_outcome-Isolated :
      (college student attempt : Uuid) (o : CheckinOutcome) (reason : String) (cs : ClassSession)
      → Follows (Isolated c) (record_outcome college student attempt o reason cs)
  unfolding record_outcome
  record_outcome-Isolated college student attempt accepted reason cs =
      search
        (promise_rules, Promises.Follows-statement, record_present-Isolated, Isolated-IsPromise)
        depth 8
  record_outcome-Isolated college student attempt rejected reason cs =
      search (promise_rules, Isolated-IsPromise)

  turn_away-Isolated : (reason : String) → Follows (Isolated c) (turn_away reason)
  unfolding turn_away
  turn_away-Isolated reason =
      search (promise_rules, count_checkin-Isolated, Isolated-IsPromise) depth 8

settle-Confined : (c student : Uuid) (a : Attempt) → Follows (Confined c) (settle c student a)
unfolding settle
settle-Confined c student (early r) = search (promise_rules, Confined-IsPromise)
settle-Confined c student (logged accepted reason record_id cs) =
    search (promise_rules, Confined-IsPromise) depth 12
settle-Confined c student (logged rejected reason record_id cs) =
    search (promise_rules, Confined-IsPromise) depth 12

module _ (fl : Floats) (unmarshal : Unmarshal) (c : Uuid) where
  judge-Isolated :
      (student : Uuid) (code : Code) (bssid : Text) (lat lng : Float) (cs : ClassSession)
      (s : Section)
      → Follows (Isolated c) (judge fl unmarshal student code bssid lat lng cs s)
  unfolding judge
  judge-Isolated student code bssid lat lng cs s =
      search (promise_rules, Isolated-IsPromise) depth 8

  log_attempt-Isolated :
      (college student : Uuid) (bssid : Text) (lat lng : Float) (policy : Policy) (s : Signals)
      (cs : ClassSession)
      → Follows (Isolated c) (log_attempt fl unmarshal college student bssid lat lng policy s cs)
  unfolding log_attempt
  log_attempt-Isolated college student bssid lat lng policy s cs =
      search
        (
          promise_rules, Promises.Follows-statement, insert_attempt-Isolated,
          record_outcome-Isolated, count_checkin-Isolated, Isolated-IsPromise,
        )
        depth 12

  pub submit_checkin-Confined :
      (student : Uuid) (code : Code) (bssid : Text) (lat lng : Float)
      → Follows (Confined c) (submit_checkin fl unmarshal c student code bssid lat lng)
  unfolding submit_checkin attempt_checkin
  submit_checkin-Confined student code bssid lat lng =
      Follows-bind (Confined-IsPromise c) _ _
        (Confined-in_tx c commits _ (λ u.
          search
            (
              promise_rules, judge-Isolated, log_attempt-Isolated, turn_away-Isolated,
              Isolated-IsPromise,
            )
            depth 20))
        (settle-Confined c student)
