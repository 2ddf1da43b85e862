-- ===== src/Session/Isolation.antt =====
-- The session service (server/internal/session/service.go) serves one tenant.
use at_app.Base.{
  ℕ, Bool, true, false, Option, none, some, List, [], ◌∷◌, ◌++◌, ◌≡◌, refl, arith, ◌==◌, ◌&&◌,
  select-insert, select-update_where, update_where, subst, snd_of_some,
}
use at_app.Store.{Uuid, Code, Database, ClassSession}
use at_app.Store.Rls.{admits}
use at_app.Store.Attendance.{with_records_inv}
use at_app.Store.Isolation.{
  foreign, admits-foreign, insert_record-foreign, outside-class_sessions,
  outside-attendance_records,
}
use at_app.World.{World, Svc, new_id}
use at_app.World.Promises
use at_app.World.Promises.{IsQuiet, Follows, Follows-bind, Follows-quiet, promise_rules}
use at_app.World.Isolation.{Isolated, Isolated-IsPromise}
use at_app.Session.Start.{generate_code, insert_session}
use at_app.Session.Rotate.{update_code, emit, generate_other, show_or_rotate}
use at_app.Session.End.{set_ended, insert_absent, mark_one, mark_next, mark_absent, summarize}

pub emit-IsQuiet : (w : World) (o : Option (Code × ℕ)) → IsQuiet w (emit w o).1
unfolding emit
emit-IsQuiet w none = record { same_env = refl; same_tenant = refl; same_db = refl }
emit-IsQuiet w (some x) = record { same_env = refl; same_tenant = refl; same_db = refl }

module _ (c : Uuid) where
  -- An update of the tenant's own sessions.
  sessions-Isolated :
      (session : Uuid) (set : ClassSession → ClassSession)
      → ((cs : ClassSession) → (set cs).college_id ≡ cs.college_id)
      → (w : World)
      → Isolated c w (record w {
        db = record (w.db) {
          class_sessions =
              update_where
                (λ cs. admits w.env.rls w.tenant cs.college_id && cs.id == session)
                set
                w.db.class_sessions;
        };
      })
  sessions-Isolated session set keeps w = record {
    same_env = refl;
    kept = λ r t. (
      t,
      outside-class_sessions c w.db _ (
          select-update_where _ _ set w.db.class_sessions (λ x e.
            touched x (admits w.env.rls w.tenant x.college_id) (x.id == session)
              (admits-foreign c x.college_id r t) e)),
    );
  }
    where
      touched :
          (x : ClassSession) (a b : Bool)
          → (a ≡ true → foreign c x.college_id ≡ false)
          → (a && b) ≡ true
          → (foreign c x.college_id ≡ false) × (foreign c (set x).college_id ≡ false)
      touched x a b h e = ground (arith, keeps x)

  insert_session_inv :
      (row : Uuid → ClassSession) (w : World) (id : Uuid) (d : Database)
      → insert_session row w ≡ some (id, d)
      → (admits w.env.rls w.tenant (row (new_id w)).college_id ≡ true)
        × (d ≡ record (w.db) { class_sessions = w.db.class_sessions ++ row (new_id w) ∷ [] })
  unfolding insert_session
  insert_session_inv row w id d h = ground arith

  pub insert_session-Isolated :
      (row : Uuid → ClassSession) (w : World) (id : Uuid) (d : Database)
      → insert_session row w ≡ some (id, d)
      → Isolated c w (record w { db = d })
  insert_session-Isolated row w id d h = record {
    same_env = refl;
    kept = λ r t.
        let (a, e) = insert_session_inv row w id d h in
        (
          t,
          rw e (
              outside-class_sessions c w.db _
                (select-insert _ w.db.class_sessions (row (new_id w)) (admits-foreign c _ r t a))),
        );
  }

  insert_absent-Isolated :
      (college session student : Uuid) (w : World) (id : Uuid) (d : Database)
      → insert_absent college session student w ≡ some (id, d)
      → Isolated c w (record w { db = d })
  unfolding insert_absent
  insert_absent-Isolated college session student w id d h = record {
    same_env = refl;
    kept = λ r t.
        let (rows, u, e) = with_records_inv w.db _ id d h in
        (
          t,
          rw e (
              outside-attendance_records c w.db rows (
                insert_record-foreign c _ (λ x. admits-foreign c x r t) _ w.db.attendance_records id
                  rows u)),
        );
  }

  pub set_ended-Isolated :
      (session : Uuid) (w : World) (u : Unit {0}) (d : Database)
      → set_ended session w ≡ some (u, d)
      → Isolated c w (record w { db = d })
  unfolding set_ended
  set_ended-Isolated session w u d h =
      subst (λ x. Isolated c w (record w { db = x })) (snd_of_some h)
        (sessions-Isolated session (λ cs. record cs { ended_at = some w.now }) (λ cs. refl) w)

  update_code-Isolated :
      (session : Uuid) (code : Code) (w : World) (u : Unit {0}) (d : Database)
      → update_code session code w ≡ some (u, d)
      → Isolated c w (record w { db = d })
  unfolding update_code
  update_code-Isolated session code w u d h =
      subst (λ x. Isolated c w (record w { db = x })) (snd_of_some h)
        (sessions-Isolated session
          (λ cs. record cs { current_code = code; code_updated_at = w.now }) (λ cs. refl) w)

  pub generate_code-Isolated : Follows (Isolated c) generate_code
  unfolding generate_code
  generate_code-Isolated = Follows-quiet (Isolated-IsPromise c) _ (λ w. ground arith)

  generate_other-Isolated : (old : Code) → Follows (Isolated c) (generate_other old)
  unfolding generate_other
  generate_other-Isolated old = Follows-quiet (Isolated-IsPromise c) _ (λ w. emit-IsQuiet w _)

  pub show_or_rotate-Isolated :
      (session : Uuid) (old : Code) (val : Option Code)
      → Follows (Isolated c) (show_or_rotate session old val)
  unfolding show_or_rotate
  show_or_rotate-Isolated session old (some val) =
      search (promise_rules, Isolated-IsPromise) depth 8
  show_or_rotate-Isolated session old none =
      search
        (
          promise_rules, Promises.Follows-statement, update_code-Isolated, generate_other-Isolated,
          Isolated-IsPromise,
        )
        depth 8

  mark_one-Isolated :
      (college session student : Uuid) (b : Bool)
      → Follows (Isolated c) (mark_one college session student b)
  unfolding mark_one
  mark_one-Isolated college session student true = search (promise_rules, Isolated-IsPromise)
  mark_one-Isolated college session student false =
      search (promise_rules, Promises.Follows-statement, insert_absent-Isolated, Isolated-IsPromise)
        depth 8

  mark_next-Isolated :
      (college session student : Uuid) (loop : Svc (List (Uuid × Uuid)))
      → Follows (Isolated c) loop
      → Follows (Isolated c) (mark_next college session student loop)
  unfolding mark_next
  mark_next-Isolated college session student loop h =
      search (promise_rules, mark_one-Isolated, Isolated-IsPromise) depth 10

  pub mark_absent-Isolated :
      (college session : Uuid) (students : List Uuid)
      → Follows (Isolated c) (mark_absent college session students)
  unfolding mark_absent
  mark_absent-Isolated college session [] = search (promise_rules, Isolated-IsPromise)
  mark_absent-Isolated college session (student ∷ students) =
      mark_next-Isolated college session student _ (mark_absent-Isolated college session students)

  pub summarize-Isolated : (session : Uuid) → Follows (Isolated c) (summarize session)
  unfolding summarize
  summarize-Isolated session = search (promise_rules, Isolated-IsPromise) depth 10
