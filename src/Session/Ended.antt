-- ===== src/Session/Ended.antt =====
-- What `EndSession` (server/internal/session/service.go) has done when it succeeds.
use at_app.Base.{
  suc, Bool, false, Option, some, List, ◌++◌, ◌≡◌, refl, sym, ◌∙◌, ap, ap₂, subst, arith,
  snd_of_some, ◌==◌, ◌&&◌, map, All, update_where,
}
use at_app.Store.{Uuid, Time, Database, ClassSession, is_present, is_absent, is_overridden}
use at_app.Store.Rls.{admits, rls_view, restrict}
use at_app.World.{World, view}
use at_app.World.Outcomes.{
  Ends, bind-Ends, pure-Ends, query-Ends, statement-Ends, or_reject-Ends, reject_if-Ends,
  with_tenant-Ends,
}
use at_app.Session.Started.{seen_by}
use at_app.Session.Marked.{Marked, absent_of, Recorded, mark_absent-Ends}
use at_app.Session.End.{
  SessionSummary, Ending, find_taught, is_ended, set_ended, enrolled, count_status, summarize,
  mark_absent, close_session,
}

abbrev pub summary_of : Uuid → Database → SessionSummary
summary_of session d = record {
  present_count = count_status is_present session d;
  absent_count = count_status is_absent session d;
  override_count = count_status is_overridden session d;
}

-- Nothing that the database, the keys or the clock hold has changed.
pub record Unchanged (w v : World) : Type 0 where
  pub db : v.db ≡ w.db
  pub cache : v.cache ≡ w.cache
  pub now : v.now ≡ w.now
  pub env : v.env ≡ w.env

summarize-Ends :
    (session : Uuid) (w : World)
    → Ends (λ s v. (s ≡ summary_of session (view w)) × Unchanged w v) (summarize session w)
unfolding summarize
summarize-Ends session w = query-Ends _ _ _ (
    query-Ends _ _ _ (
      query-Ends _ _ _
        (pure-Ends _ _ (refl, record { db = refl; cache = refl; now = refl; env = refl }))))

module _ (c teacher session : Uuid) where
  -- the tenant's sessions with that identifier get their end
  abbrev pub ended_at : World → List ClassSession
  ended_at w =
      update_where (λ cs. admits w.env.rls (some c) cs.college_id && cs.id == session)
        (λ cs. record cs { ended_at = some w.now }) w.db.class_sessions

  pub record Closed (w : World) (e : Ending) (v : World) : Type 0 where
    pub taught :
        (cs : ClassSession) × (find_taught session teacher (seen_by c w) ≡ some cs)
        × (is_ended cs ≡ false)
        × (e.section_id ≡ cs.section_id)
    pub written : v.db ≡ record (w.db) {
      class_sessions = ended_at w;
      attendance_records = w.db.attendance_records ++ map (absent_of c session w.now) e.absentees;
    }
    pub covered : All (Recorded session v.db) (enrolled e.section_id (seen_by c w))
    pub summary : e.summary ≡ summary_of session (rls_view w.env.rls (some c) v.db)
    pub cache : v.cache ≡ w.cache
    pub now : v.now ≡ w.now
    pub env : v.env ≡ w.env

  set_ended_inv :
      (w v : World) {u : Unit {0}} (d : Database)
      → v.db ≡ w.db
      → v.now ≡ w.now
      → v.env ≡ w.env
      → v.tenant ≡ some c
      → set_ended session v ≡ some (u, d)
      → d ≡ record (w.db) { class_sessions = ended_at w }
  unfolding set_ended
  set_ended_inv w v d a n e t h = sym (snd_of_some h) ∙ ground arith

  -- The session has its end, and nothing else has changed.
  record EndSet (w u : World) : Type 0 where
    set : u.db ≡ record (w.db) { class_sessions = ended_at w }
    env : u.env ≡ w.env
    tenant : u.tenant ≡ some c
    now : u.now ≡ w.now
    cache : u.cache ≡ w.cache

  finish_closing :
      (w u v x : World) (cs : ClassSession) (l : List (Uuid × Uuid)) (s : SessionSummary)
      → find_taught session teacher (seen_by c w) ≡ some cs
      → is_ended cs ≡ false
      → EndSet w u
      → Marked c session (enrolled cs.section_id (seen_by c w)) u l v
      → (s ≡ summary_of session (view v)) × Unchanged v x
      → Closed w (record { section_id = cs.section_id; absentees = l; summary = s }) x
  finish_closing w u v x cs l s found still_open e m (sum, k) = record {
    taught = (cs, found, still_open, refl);
    written =
        k.db
        ∙ m.appended
        ∙ ap₂ {A = Database} {B = Time}
            (λ d n. record d {
              attendance_records = d.attendance_records ++ map (absent_of c session n) l;
            })
            e.set e.now;
    covered =
        subst (λ d. All (Recorded session d) (enrolled cs.section_id (seen_by c w))) (sym k.db)
          m.covered;
    summary =
        sum
        ∙ ap₂ {A = Bool} {B = Option Uuid} (λ r t. summary_of session (rls_view r t v.db))
            (ap (λ y. y.rls) (m.same_env ∙ e.env)) (m.same_tenant ∙ e.tenant)
        ∙ ap (λ d. summary_of session (rls_view w.env.rls (some c) d)) (sym k.db);
    cache = k.cache ∙ m.same_cache ∙ e.cache;
    now = k.now ∙ m.same_now ∙ e.now;
    env = k.env ∙ m.same_env ∙ e.env;
  }

  enrolled_after :
      (w : World) (section : Uuid) (d : Database)
      → d ≡ record (w.db) { class_sessions = ended_at w }
      → enrolled section (rls_view w.env.rls (some c) d) ≡ enrolled section (seen_by c w)
  unfolding rls_view restrict enrolled
  enrolled_after w section d e = ap (λ y. enrolled section (rls_view w.env.rls (some c) y)) e

  pub close_session-Ends : (w : World) → Ends (Closed w) (close_session c teacher session w)
  unfolding close_session
  close_session-Ends w = with_tenant-Ends _ _ c (
      query-Ends _ _ _ (
        or_reject-Ends _ _ _ _ _ λ cs found. reject_if-Ends _ _ _ _ _ λ still_open.
          statement-Ends _ _ _ λ u d e1.
            let e2 = set_ended_inv w _ d refl refl refl refl e1 in
            let w2 : World = record w {
              calls = suc (suc (suc (suc w.calls)));
              tenant = some c;
              db = d;
            } in
            let students = enrolled cs.section_id (view w2) in
            let loop = mark_absent c session students in
            query-Ends _ _ _ (
              bind-Ends loop _ w2 λ l e3.
                let v = (loop w2).1 in
                let m = (mark_absent-Ends c session students w2).at l e3 in
                bind-Ends (summarize session) _ v λ s e4.
                  let k = (summarize-Ends session v).at s e4 in
                  pure-Ends _ _ (
                    finish_closing w w2 v (summarize session v).1 cs l s found still_open
                      (record { set = e2; env = refl; tenant = refl; now = refl; cache = refl })
                      (subst (λ y. Marked c session y w2 l v) (enrolled_after w cs.section_id d e2)
                        m)
                      k))))
