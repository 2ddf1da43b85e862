-- ===== src/Verification/Weighed.antt =====
-- What the transaction of `SubmitCheckin` (server/internal/verification/service.go) has checked and
-- written.
use at_app.Base.{
  ℕ, suc, Bool, true, false, Option, none, some, String, ◌≡◌, refl, sym, ◌∙◌, ap, subst, arith,
  if◌then◌else◌, ◌&&◌, exists_where, ==-refl,
}
use at_app.Base.Floats.{Float, Floats}
use at_app.Store.{
  Uuid, Text, Code, Database, Section, ClassSession, VerificationAttempt, is_present, accepted,
  rejected, CheckinOutcome,
}
use at_app.Store.Attendance.{keyed, with_records_inv}
use at_app.Store.Upsert.{upsert_record-exists}
use at_app.Store.Rls.{rls_view}
use at_app.World.{World, Svc, ok, live}
use at_app.World.Outcomes.{
  Ends, bind-Ends, pure-Ends, gets-Ends, query-Ends, or_reject-Ends, or_fail-Ends, statement-Ends,
  with_tenant-Ends, redis_get-Ends, try_query-Ends,
}
use at_app.Verification.Signals.{
  Policy, Unmarshal, load_policy, Signals, target, geofence_match, code_match, bssid_match, outcome,
}
use at_app.Verification.Checkin.{
  count_checkin, find_policy, find_session, checked_in, insert_attempt, record_present, present_row,
  set_present, Attempt, early, logged, spent, again, too_many, already, turn_away, log_attempt,
  judge, record_outcome, attempt_checkin,
}

-- The student's college as the database shows it to the college.
abbrev seen : Uuid → World → Database
seen c w = rls_view w.env.rls (some c) w.db

record_present-checked_in :
    (c session student attempt : Uuid) (w : World) (id : Uuid) (d : Database)
    → record_present c session student attempt w ≡ some (id, d)
    → checked_in session student d ≡ true
unfolding record_present checked_in is_present
record_present-checked_in c session student attempt w id d h =
    let (rows, u, e) = with_records_inv w.db _ id d h in
    subst
      (λ y.
        exists_where (λ r. keyed session student r && is_present r.status) y.attendance_records
        ≡ true)
      (sym e)
      (upsert_record-exists _ (present_row c session student attempt w) (set_present attempt w) _
        rows id _ u (ground (arith, ==-refl session, ==-refl student)) (λ r k. ground (arith, k)))

record_present-same :
    (c session student attempt : Uuid) (w : World) (id : Uuid) (d : Database)
    → record_present c session student attempt w ≡ some (id, d)
    → d ≡ record (w.db) { attendance_records = d.attendance_records }
unfolding record_present
record_present-same c session student attempt w id d h =
    let (rows, u, e) = with_records_inv w.db _ id d h in ground arith

module _ (fl : Floats) (unmarshal : Unmarshal) (c student : Uuid) (code : Code) (bssid : Text)
    (lat lng : Float) where
  -- The student's failed attempts that Redis reports, unless this call, the fourth of the
  -- transaction, fails.
  abbrev pub attempts_seen : World → ClassSession → Option ℕ
  attempts_seen w cs =
      if w.env.down (suc (suc (suc w.calls)))
      then none
      else live w.now (w.cache.attempts student cs.id)

  -- Whether the student has a present record already, unless this query, the fifth call, fails.
  abbrev pub present_seen : World → ClassSession → Option Bool
  present_seen w cs =
      if w.env.down (suc (suc (suc (suc w.calls))))
      then none
      else some (checked_in cs.id student (seen c w))

  -- The session's code in Redis, unless the sixth call fails.
  abbrev pub active_seen : World → ClassSession → Option Code
  active_seen w cs =
      if w.env.down (suc (suc (suc (suc (suc w.calls)))))
      then none
      else live w.now (w.cache.code cs.id)

  -- The session's code before it, unless the seventh call fails.
  abbrev pub prev_seen : World → ClassSession → Option Code
  prev_seen w cs =
      if w.env.down (suc (suc (suc (suc (suc (suc w.calls))))))
      then none
      else live w.now (w.cache.prev cs.id)

  -- The signals come from the submission: the code against what Redis has; the network against the
  -- classroom's; the place against the session's or the classroom's geofence.
  pub record Judged (w : World) (cs : ClassSession) (s : Section) (x : Signals) : Type 0 where
    pub codes : x.code ≡ code_match code (active_seen w cs) (prev_seen w cs)
    pub network : x.bssid ≡ bssid_match bssid s.classroom_bssid
    pub place : x.geo ≡ geofence_match fl (target cs s) lat lng

  -- Where the attempt was weighed: the student's open session, the signals and the policy.
  pub record Weighed (w : World) (o : CheckinOutcome) (cs : ClassSession) : Type 0 where
    pub raw : Text
    pub found_policy : find_policy c (seen c w) ≡ some raw
    pub section : Section
    pub found_session : find_session student (seen c w) ≡ some (cs, section)
    pub signals : Signals
    pub judged : Judged w cs section signals
    pub within_limit : spent (load_policy unmarshal raw) (attempts_seen w cs) ≡ false
    pub not_yet : again (present_seen w cs) ≡ false
    pub decided : outcome (load_policy unmarshal raw) signals ≡ o

  -- Why no signal was looked at: the attempts are used up, or the student is present already.
  pub data Barred (w : World) : String → Type 0 where
    used_up :
        (raw : Text) (cs : ClassSession) (section : Section)
        → find_policy c (seen c w) ≡ some raw
        → find_session student (seen c w) ≡ some (cs, section)
        → spent (load_policy unmarshal raw) (attempts_seen w cs) ≡ true
        → Barred w too_many
    present :
        (cs : ClassSession) (section : Section)
        → find_session student (seen c w) ≡ some (cs, section)
        → again (present_seen w cs) ≡ true
        → Barred w already

  -- Redis, the clock and the environment are as before.
  pub record Kept (w v : World) : Type 0 where
    pub cache : v.cache ≡ w.cache
    pub now : v.now ≡ w.now
    pub env : v.env ≡ w.env

  pub data Tried (w : World) : Attempt → World → Type 0 where
    turned :
        {v : World} (reason : String)
        → Barred w reason
        → v.cache ≡ w.cache
        → Tried w (early (record { result = rejected; rejection_reason = some reason })) v
    failed :
        {v : World} (reason : String) (cs : ClassSession)
        → Weighed w rejected cs
        → v.db.attendance_records ≡ w.db.attendance_records
        → Kept w v
        → Tried w (logged rejected reason 0 cs) v
    passed :
        {v : World} (id : Uuid) (cs : ClassSession)
        → Weighed w accepted cs
        → checked_in cs.id student v.db ≡ true
        → Kept w v
        → Tried w (logged accepted "" id cs) v

  record_outcome-Ends :
      (w u : World) (attempt : Uuid) (o : CheckinOutcome) (reason : String) (cs : ClassSession)
      → Weighed w o cs
      → u.db.attendance_records ≡ w.db.attendance_records
      → Kept w u
      → Ends (Tried w) (record_outcome c student attempt o reason cs u)
  unfolding record_outcome
  record_outcome-Ends w u attempt accepted reason cs h a k = statement-Ends _ _ _ λ id d e.
      pure-Ends _ _ (
        passed id cs h (record_present-checked_in c cs.id student attempt _ id d e)
          (record { cache = k.cache; now = k.now; env = k.env }))
  record_outcome-Ends w u attempt rejected reason cs h a k = pure-Ends _ _ (failed reason cs h a k)

  insert_attempt-same :
      (row : Uuid → VerificationAttempt) (w : World) (id : Uuid) (d : Database)
      → insert_attempt row w ≡ some (id, d)
      → d.attendance_records ≡ w.db.attendance_records
  unfolding insert_attempt
  insert_attempt-same row w id d h = ground arith

  count_checkin-ok :
      (o : CheckinOutcome) (w : World) (u : Unit {0})
      → (count_checkin o w).0 ≡ ok u
      → ((count_checkin o w).1.db ≡ w.db) × Kept w (count_checkin o w).1
  unfolding count_checkin
  count_checkin-ok accepted w u h = (refl, record { cache = refl; now = refl; env = refl })
  count_checkin-ok rejected w u h = (refl, record { cache = refl; now = refl; env = refl })

  turn_away-Ends :
      (w u : World) (reason : String)
      → Barred w reason
      → u.cache ≡ w.cache
      → Ends (Tried w) (turn_away reason u)
  unfolding turn_away
  turn_away-Ends w u reason why ce =
      bind-Ends _ _ u
        λ x e. pure-Ends _ _ (turned reason why ((count_checkin-ok rejected u x e).1.cache ∙ ce))

  log_attempt-Ends :
      (w u : World) (policy : Policy) (s : Signals) (cs : ClassSession)
      → Weighed w (outcome policy s) cs
      → u.db ≡ w.db
      → Kept w u
      → Ends (Tried w) (log_attempt fl unmarshal c student bssid lat lng policy s cs u)
  unfolding log_attempt
  log_attempt-Ends w u policy s cs h a k = gets-Ends _ _ _ (
      statement-Ends _ _ _ λ attempt d e. bind-Ends _ _ _ λ x counted.
        let (same, q) = count_checkin-ok _ _ x counted in
        record_outcome-Ends w _ attempt (outcome policy s) _ cs h
          (ap (λ y. y.attendance_records) same
            ∙ insert_attempt-same _ _ attempt d e
            ∙ ap (λ y. y.attendance_records) a)
          (record { cache = q.cache ∙ k.cache; now = q.now ∙ k.now; env = q.env ∙ k.env }))

  -- The world of the judgement: five calls have been made for the college.
  abbrev judging : World → World
  judging w = record w { calls = suc (suc (suc (suc (suc w.calls)))); tenant = some c }

  judge-Ends :
      (w : World) (cs : ClassSession) (s : Section)
      → Ends
          (λ x v. Judged w cs s x × (v.db ≡ w.db) × Kept w v)
          (judge fl unmarshal student code bssid lat lng cs s (judging w))
  unfolding judge
  judge-Ends w cs s = redis_get-Ends _ _ _ (
      redis_get-Ends _ _ _ (
        pure-Ends _ _ (
          record { codes = refl; network = refl; place = refl },
          refl,
          record { cache = refl; now = refl; env = refl },
        )))

  if_Ends :
      {B : Type 0} {P : B → World → Type 0} (b : Bool) (x y : Svc B) (w : World)
      → (b ≡ true → Ends P (x w))
      → (b ≡ false → Ends P (y w))
      → Ends P ((if b then x else y) w)
  if_Ends true x y w p q = p refl
  if_Ends false x y w p q = q refl

  pub attempt_checkin-Ends :
      (w : World) → Ends (Tried w) (attempt_checkin fl unmarshal c student code bssid lat lng w)
  unfolding attempt_checkin
  attempt_checkin-Ends w = with_tenant-Ends _ _ c (
      query-Ends _ _ _ (
        or_fail-Ends _ _ _ λ raw found_policy. query-Ends _ _ _ (
          or_reject-Ends _ _ _ _ _ λ (cs, s) found. redis_get-Ends _ _ _ (
            if_Ends _ _ _ _
              (λ full. turn_away-Ends w _ _ (used_up raw cs s found_policy found full) refl)
              λ fresh. try_query-Ends _ _ _ (
                if_Ends _ _ _ _ (λ twice. turn_away-Ends w _ _ (present cs s found twice) refl)
                  λ first_time.
                    bind-Ends (judge fl unmarshal student code bssid lat lng cs s) _ _ λ x e.
                      let (j, same, k) = (judge-Ends w cs s).at x e in
                      log_attempt-Ends w _ _ x cs
                        (record {
                          raw = raw;
                          found_policy = found_policy;
                          section = s;
                          found_session = found;
                          signals = x;
                          judged = j;
                          within_limit = fresh;
                          not_yet = first_time;
                          decided = refl;
                        })
                        same k)))))
