-- ===== src/Session/Summary.antt =====
-- What a teacher's `EndSession` (server/internal/session/service.go) leaves behind.
use at_app.Base.{
  ℕ, if◌then◌else◌, suc, false, some, List, [], ◌∷◌, ◌++◌, ◌≡◌, refl, sym, ◌∙◌, ap, subst, arith,
  map, All,
}
use at_app.Store.{Uuid, Database, ClassSession}
use at_app.Store.Rls.{rls_view}
use at_app.World.{World, Message, ok, always, publish}
use at_app.World.Outcomes.{
  Ends, bind-Ends, pure-Ends, gets-Ends, publish-Ends, redis_do-Ends, in_tx-Ends,
}
use at_app.World.Isolation.{begun}
use at_app.Session.Started.{seen_by}
use at_app.Session.Marked.{absent_of, Recorded}
use at_app.Session.Ended.{Unchanged, ended_at, summary_of, close_session-Ends}
use at_app.Session.End.{
  SessionSummary, find_taught, is_ended, enrolled, close_session, count_ended, del_codes,
  publish_one, publish_absent, end_session,
}

count_ended-ok :
    (w : World) (u : Unit {0})
    → (count_ended w).0 ≡ ok u
    → (count_ended w).1 ≡ record w { sessions_ended = suc w.sessions_ended }
unfolding count_ended
count_ended-ok w u h = refl

Unchanged-trans : (a b c : World) → Unchanged a b → Unchanged b c → Unchanged a c
Unchanged-trans a b c p q = record {
  db = q.db ∙ p.db;
  cache = q.cache ∙ p.cache;
  now = q.now ∙ p.now;
  env = q.env ∙ p.env;
}

publish-Unchanged :
    (m : Message) (w : World) (u : Unit {0}) → (publish m w).0 ≡ ok u → Unchanged w (publish m w).1
unfolding publish
publish-Unchanged m w u h = record {
  db = ground arith;
  cache = ground arith;
  now = ground arith;
  env = ground arith;
}

publish_one-Ends :
    (c session section record_id student : Uuid) (w : World)
    → Ends (λ u v. Unchanged w v) (publish_one c session section record_id student w)
unfolding publish_one
publish_one-Ends c session section record_id student w =
    gets-Ends _ _ _ (record { at = publish-Unchanged _ w })

publish_absent-Ends :
    (c session section : Uuid) (l : List (Uuid × Uuid)) (w : World)
    → Ends (λ u v. Unchanged w v) (publish_absent c session section l w)
unfolding publish_absent
publish_absent-Ends c session section [] w =
    pure-Ends _ _ (record { db = refl; cache = refl; now = refl; env = refl })
publish_absent-Ends c session section (p ∷ l) w =
    bind-Ends (publish_one c session section p.0 p.1) _ w λ u e.
      let one = (publish_one-Ends c session section p.0 p.1 w).at u e in
      let v = (publish_one c session section p.0 p.1 w).1 in
      record {
        at = λ b f. Unchanged-trans w v _ one ((publish_absent-Ends c session section l v).at b f);
      }

deleted_moved :
    (session : Uuid) (n : ℕ) (w v : World)
    → v.cache ≡ w.cache
    → v.now ≡ w.now
    → v.env ≡ w.env
    → (if v.env.down n then v.cache else del_codes session v.now v.cache)
      ≡ (if w.env.down n then w.cache else del_codes session w.now w.cache)
deleted_moved session n w v ce ne ee = rw (ce, ne, ee)

moved :
    (c session : Uuid) (w : World) (d : Database) (s t : Uuid)
    → s ≡ t
    → All (Recorded session d) (enrolled s (seen_by c w))
    → All (Recorded session d) (enrolled t (seen_by c w))
moved c session w d s t e = subst (λ s. All (Recorded session d) (enrolled s (seen_by c w))) e

module _ (c teacher session : Uuid) where
  -- The session is the teacher's and was open; it has its end; the enrolled students without a
  -- record are absent; the summary counts the session's records; its codes are gone from Redis,
  -- unless the call for it fails.
  pub record SessionEnded (w : World) (s : SessionSummary) (v : World) : Type 0 where
    pub taught :
        (cs : ClassSession) × (find_taught session teacher (seen_by c w) ≡ some cs)
        × (is_ended cs ≡ false)
        × All (Recorded session v.db) (enrolled cs.section_id (seen_by c w))
    pub written :
        (absentees : List (Uuid × Uuid)) × (v.db ≡ record (w.db) {
          class_sessions = ended_at c teacher session w;
          attendance_records = w.db.attendance_records ++ map (absent_of c session w.now) absentees;
        })
    pub summary : s ≡ summary_of session (rls_view w.env.rls (some c) v.db)
    pub codes :
        (n : ℕ) × (v.cache ≡ (if w.env.down n then w.cache else del_codes session w.now w.cache))

  pub end_session-Ends : (w : World) → Ends (SessionEnded w) (end_session c teacher session w)
  unfolding end_session
  end_session-Ends w = in_tx-Ends _ _ _ w (record {
    at = λ e closed w' ended.
        let k = (close_session-Ends c teacher session _).at e closed in
        let (cs, found, still_open, same) = k.taught in
        bind-Ends _ _ _ λ u counted. rw (count_ended-ok w' u counted) (
          redis_do-Ends _ _ _ (
            bind-Ends (publish_absent c session e.section_id e.absentees) _ _ λ u2 sent.
              let q = (publish_absent-Ends c session e.section_id e.absentees _).at u2 sent in
              gets-Ends _ _ _ (
                publish-Ends _ _ _ λ b sent2. pure-Ends _ _ (record {
                  taught = (
                    cs,
                    found,
                    still_open,
                    subst (λ d. All (Recorded session d) (enrolled cs.section_id (seen_by c w)))
                        (sym (q.db ∙ ended.db))
                        (moved c session w
                          (close_session c teacher session
                            (begun always (close_session c teacher session) w)).1.db
                          _ _ same k.covered),
                  );
                  written = (e.absentees, q.db ∙ ended.db ∙ k.written);
                  summary =
                      k.summary
                      ∙ ap (λ d. summary_of session (rls_view w.env.rls (some c) d))
                          (sym (q.db ∙ ended.db));
                  codes = (
                    w'.calls,
                    q.cache
                        ∙ deleted_moved session w'.calls w w' (ended.cache ∙ k.cache)
                            (ended.now ∙ k.now) (ended.env ∙ k.env),
                  );
                }))));
  })
