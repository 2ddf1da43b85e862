-- ===== src/Session/Started.antt =====
-- What `StartSession` (server/internal/session/service.go) has done when it succeeds.
use at_app.Base.{
  ℕ, suc, true, false, Option, some, ◌≡◌, refl, ◌∙◌, arith, ◌++◌, ◌∷◌, [], not-false, ap₂,
}
use at_app.Base.Floats.{Float, Floats}
use at_app.Store.{Uuid, Code, Database}
use at_app.Store.Rls.{rls_view}
use at_app.World.{World, Svc, ◌>>=◌, continue, ok}
use at_app.World.Outcomes.{
  Ends, bind-Ends, pure-Ends, gets-Ends, query-Ends, statement-Ends, reject_if-Ends,
  with_tenant-Ends, publish-Ends, redis_must-Ends, in_tx-Ends, ticked,
}
use at_app.Session.Codes.{format_code}
use at_app.Session.Start.{
  StartSessionResult, open_session, start_session, session_row, teaches, active_exists,
  generate_code, insert_session, count_started, set_code,
}

module _ {B : Type 0} {P : B → World → Type 0} (k : Code → Svc B) (w : World) where
  generate_code-Ends :
      Ends P (k (format_code (w.env.draw w.calls)) (ticked w)) → Ends P ((generate_code >>= k) w)
  unfolding generate_code ◌>>=◌ continue
  generate_code-Ends h = h

count_started-ok :
    (w : World) (u : Unit {0})
    → (count_started w).0 ≡ ok u
    → (count_started w).1 ≡ record w { sessions_started = suc w.sessions_started }
unfolding count_started
count_started-ok w u h = refl

-- What the teacher's tenant sees.
abbrev pub seen_by : Uuid → World → Database
seen_by c w = rls_view w.env.rls (some c) w.db

module _ (fl : Floats) (c teacher section : Uuid) (lat lng radius : Option Float) where
  -- The session is the teacher's, no other was open, and its row is the only change.
  pub record Opened (w : World) (x : Uuid × Code) (v : World) : Type 0 where
    pub owned : teaches section teacher (seen_by c w) ≡ true
    pub none_open : active_exists section (seen_by c w) ≡ false
    pub drawn : (i : ℕ) × (x.1 ≡ format_code (w.env.draw i))
    pub added : v.db ≡ record (w.db) {
      class_sessions =
          w.db.class_sessions ++ session_row fl c teacher section x.1 w.now lat lng radius x.0 ∷ [];
    }
    pub cache : v.cache ≡ w.cache
    pub now : v.now ≡ w.now

  insert_session_inv :
      (code : Code) (w v : World) (id : Uuid) (d : Database)
      → v.now ≡ w.now
      → v.db ≡ w.db
      → insert_session (session_row fl c teacher section code w.now lat lng radius) v ≡ some (id, d)
      → d ≡ record (w.db) {
        class_sessions =
            w.db.class_sessions
            ++ session_row fl c teacher section code w.now lat lng radius id ∷ [];
      }
  unfolding insert_session
  insert_session_inv code w v id d n e h = ground arith

  open_session-Ends :
      (w : World) → Ends (Opened w) (open_session fl c teacher section lat lng radius w)
  unfolding open_session
  open_session-Ends w = with_tenant-Ends _ _ c (
      query-Ends _ _ _ (
        reject_if-Ends _ _ _ _ _ λ owned. query-Ends _ _ _ (
          reject_if-Ends _ _ _ _ _ λ none_open. generate_code-Ends _ _ (
            gets-Ends _ _ _ (
              statement-Ends _ _ _ λ id d e. pure-Ends _ _ (record {
                owned = not-false _ owned;
                none_open = none_open;
                drawn = (_, refl);
                added = insert_session_inv _ w _ id d refl refl e;
                cache = refl;
                now = refl;
              }))))))

  -- A session that has been started: its row, its code in Redis for ten seconds, its event or none.
  pub record Started (w : World) (r : StartSessionResult) (v : World) : Type 0 where
    pub owned : teaches section teacher (seen_by c w) ≡ true
    pub none_open : active_exists section (seen_by c w) ≡ false
    pub drawn : (i : ℕ) × (r.current_code ≡ format_code (w.env.draw i))
    pub added : v.db ≡ record (w.db) {
      class_sessions =
          w.db.class_sessions
          ++ session_row fl c teacher section r.current_code w.now lat lng radius r.session_id ∷ [];
    }
    pub shown : v.cache ≡ set_code r.session_id r.current_code 10 w.now w.cache
    pub now : v.now ≡ w.now
    pub expires : r.code_expires_in_seconds ≡ 10

  pub start_session-Ends :
      (w : World) → Ends (Started w) (start_session fl c teacher section lat lng radius w)
  unfolding start_session
  start_session-Ends w = in_tx-Ends _ _ _ w (record {
    at = λ x e w' ended.
        let o = (open_session-Ends _).at x e in
        bind-Ends _ _ _ λ u counted. rw (count_started-ok w' u counted) (
          redis_must-Ends _ _ _ (
            gets-Ends _ _ _ (
              publish-Ends _ _ _ λ b sent. pure-Ends _ _ (record {
                owned = o.owned;
                none_open = o.none_open;
                drawn = o.drawn;
                added = ended.db ∙ o.added;
                shown = ap₂ (set_code x.0 x.1 10) (ended.now ∙ o.now) (ended.cache ∙ o.cache);
                now = ended.now ∙ o.now;
                expires = refl;
              }))));
  })
