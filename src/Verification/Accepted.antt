-- ===== src/Verification/Accepted.antt =====
-- The answers of `SubmitCheckin` (server/internal/verification/service.go).
use at_app.Base.{ℕ, suc, true, none, some, String, ◌≡◌, sym, ◌∙◌, ap, subst, if◌then◌else◌}
use at_app.Base.Floats.{Float, Floats}
use at_app.Store.{Uuid, Text, Code, ClassSession, accepted, rejected}
use at_app.World.{World, Cache}
use at_app.World.Outcomes.{Ends, pure-Ends, gets-Ends, redis_do-Ends, publish-Ends, in_tx-Ends}
use at_app.World.Isolation.{begun}
use at_app.Verification.Signals.{Unmarshal}
use at_app.Verification.Checkin.{
  del_attempts, incr_attempts, expire_attempts, CheckinResult, checked_in, Attempt, early, logged,
  commits, attempt_checkin, settle, submit_checkin,
}
use at_app.Verification.Weighed.{
  Weighed, Barred, Tried, turned, failed, passed, attempt_checkin-Ends,
}

module _ (fl : Floats) (unmarshal : Unmarshal) (c student : Uuid) (code : Code) (bssid : Text)
    (lat lng : Float) where
  -- The transaction begins in the state of the call, one call later.
  abbrev pub entered : World → World
  entered w = record w { calls = suc w.calls; tenant = none }

  -- Redis without the student's attempts, unless call `n` fails.
  abbrev pub cleared : ClassSession → ℕ → World → Cache
  cleared cs n w = if w.env.down n then w.cache else del_attempts student cs.id w.now w.cache

  -- Redis with one more attempt, unless call `n` fails, that counts for fifteen minutes, unless
  -- call `n + 1` fails.
  abbrev pub incremented : ClassSession → ℕ → World → Cache
  incremented cs n w = if w.env.down n then w.cache else incr_attempts student cs.id w.now w.cache

  abbrev pub counted : ClassSession → ℕ → World → Cache
  counted cs n w =
      if w.env.down (suc n)
      then incremented cs n w
      else expire_attempts student cs.id 900 w.now (incremented cs n w)

  -- The three ways that a check-in is answered.
  pub data Answered (w : World) : CheckinResult → World → Type 0 where
    taken :
        {v : World} (cs : ClassSession)
        → Weighed fl unmarshal c student code bssid lat lng (entered w) accepted cs
        → checked_in cs.id student v.db ≡ true
        → (n : ℕ) × (v.cache ≡ cleared cs n w)
        → Answered w (record { result = accepted; rejection_reason = none }) v
    refused :
        {v : World} (reason : String) (cs : ClassSession)
        → Weighed fl unmarshal c student code bssid lat lng (entered w) rejected cs
        → v.db.attendance_records ≡ w.db.attendance_records
        → (n : ℕ) × (v.cache ≡ counted cs n w)
        → Answered w (record { result = rejected; rejection_reason = some reason }) v
    turned_away :
        {v : World} (reason : String)
        → Barred fl unmarshal c student code bssid lat lng (entered w) reason
        → v.db ≡ w.db
        → v.cache ≡ w.cache
        → Answered w (record { result = rejected; rejection_reason = some reason }) v

  cleared-moved :
      (cs : ClassSession) (n : ℕ) (w w' : World)
      → w'.cache ≡ w.cache
      → w'.now ≡ w.now
      → w'.env ≡ w.env
      → cleared cs n w' ≡ cleared cs n w
  cleared-moved cs n w w' ce ne ee = rw (ce, ne, ee)

  counted-moved :
      (cs : ClassSession) (n : ℕ) (w w' : World)
      → w'.cache ≡ w.cache
      → w'.now ≡ w.now
      → w'.env ≡ w.env
      → counted cs n w' ≡ counted cs n w
  counted-moved cs n w w' ce ne ee = rw (ce, ne, ee)

  settle-Ends :
      (w v w' : World) (a : Attempt)
      → Tried fl unmarshal c student code bssid lat lng (entered w) a v
      → w'.db ≡ (if commits a then v.db else w.db)
      → w'.cache ≡ v.cache
      → w'.now ≡ v.now
      → w'.env ≡ v.env
      → Ends (Answered w) (settle c student a w')
  unfolding settle
  settle-Ends w v w' (early r) (turned reason why k) d ce ne ee =
      pure-Ends _ _ (turned_away reason why d (ce ∙ k))
  settle-Ends w v w' (logged o reason id cs) (failed why x h same k) d ce ne ee =
      redis_do-Ends _ _ _ (
        redis_do-Ends _ _ _ (
          pure-Ends _ _ (
            refused why x h (ap (λ y. y.attendance_records) d ∙ same)
              (w'.calls, counted-moved x w'.calls w w' (ce ∙ k.cache) (ne ∙ k.now) (ee ∙ k.env)))))
  settle-Ends w v w' (logged o reason id cs) (passed record_id x h done k) d ce ne ee =
      redis_do-Ends _ _ _ (
        gets-Ends _ _ _ (
          publish-Ends _ _ _ λ b sent. pure-Ends _ _ (
            taken x h (subst (λ y. checked_in x.id student y ≡ true) (sym d) done)
              (w'.calls, cleared-moved x w'.calls w w' (ce ∙ k.cache) (ne ∙ k.now) (ee ∙ k.env)))))

  pub submit_checkin-Ends :
      (w : World) → Ends (Answered w) (submit_checkin fl unmarshal c student code bssid lat lng w)
  unfolding submit_checkin
  submit_checkin-Ends w =
      let body = attempt_checkin fl unmarshal c student code bssid lat lng in
      in_tx-Ends commits body _ w (record {
        at = λ a tried w' ended.
            settle-Ends w (body (begun commits body w)).1 w' a
              ((attempt_checkin-Ends fl unmarshal c student code bssid lat lng
                  (begun commits body w)).at
                a tried)
              ended.db ended.cache ended.now ended.env;
      })
