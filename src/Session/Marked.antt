-- ===== src/Session/Marked.antt =====
-- The loop of `EndSession` over the enrolled students (server/internal/session/service.go).
use at_app.Base.{
  Bool, true, false, none, some, List, [], ◌∷◌, ◌++◌, ◌≡◌, refl, sym, ◌∙◌, ap, ap₂, subst, arith,
  map, All, exists_where, exists_where-append, exists_where-select,
}
use mathlib.Core.List.{append-nil, append_assoc, map-append}
use at_app.Store.{Uuid, Time, Database, AttendanceRecord, Status}
use at_app.Store.Rls.{rls_view, restrict}
use at_app.Store.Attendance.{keyed, with_records_inv, insert_record_inv}
use at_app.World.{World, Svc, view}
use at_app.World.Outcomes.{Ends, bind-Ends, pure-Ends, query-Ends, statement-Ends, ticked}
use at_app.Session.End.{has_record, absent_row, insert_absent, mark_one, mark_next, mark_absent}

-- A newly absent student's row.
abbrev pub absent_of : Uuid → Uuid → Time → Uuid × Uuid → AttendanceRecord
absent_of college session now p = record {
  id = p.0;
  college_id = college;
  session_id = session;
  student_id = p.1;
  status = Status.absent;
  recorded_at = now;
  verification_attempt_id = none;
}

abbrev pub Recorded : Uuid → Database → Uuid → Type 0
Recorded session d student = exists_where (keyed session student) d.attendance_records ≡ true

module _ (college session : Uuid) where
  -- The loop has appended one absent row for each pair of its result, for students who had none,
  -- and every student of its list has a record.
  pub record Marked (students : List Uuid) (w : World) (l : List (Uuid × Uuid)) (v : World)
      : Type 0 where
    pub appended : v.db ≡ record (w.db) {
      attendance_records = w.db.attendance_records ++ map (absent_of college session w.now) l;
    }
    pub covered : All (Recorded session v.db) students
    pub same_env : v.env ≡ w.env
    pub same_tenant : v.tenant ≡ w.tenant
    pub same_now : v.now ≡ w.now
    pub same_cache : v.cache ≡ w.cache

  insert_absent_inv :
      (student : Uuid) (w : World) (id : Uuid) (d : Database)
      → insert_absent college session student w ≡ some (id, d)
      → d ≡ record (w.db) {
        attendance_records =
            w.db.attendance_records ++ absent_of college session w.now (id, student) ∷ [];
      }
  unfolding insert_absent
  insert_absent_inv student w id d h =
      let (rows, u, e) = with_records_inv w.db _ id d h in
      let (i, r, _) = insert_record_inv _ (absent_row college session student w) _ rows id u in
      e ∙ ground (arith, r, i)

  Recorded-append :
      (d : Database) (rows : List AttendanceRecord) (student : Uuid)
      → Recorded session d student
      → Recorded session (record d { attendance_records = d.attendance_records ++ rows }) student
  Recorded-append d rows student h =
      exists_where-append (keyed session student) d.attendance_records rows ∙ ground (arith, h)

  Recorded-new :
      (d : Database) (now : Time) (p : Uuid × Uuid)
      → Recorded session
          (record d {
            attendance_records = d.attendance_records ++ absent_of college session now p ∷ [];
          })
          p.1
  Recorded-new d now p =
      exists_where-append (keyed session p.1) d.attendance_records _
      ∙ unfold exists_where in ground arith

  -- What a student's record looks like through the policies is there.
  seen-Recorded :
      (student : Uuid) (v : World)
      → has_record session student (view v) ≡ true
      → Recorded session v.db student
  unfolding has_record rls_view restrict
  seen-Recorded student v h = exists_where-select _ _ v.db.attendance_records h

  together :
      {s t : List Uuid} (one more : List (Uuid × Uuid)) (u v w : World)
      → Marked s u one v
      → Marked t v more w
      → w.db ≡ record (u.db) {
        attendance_records =
            u.db.attendance_records ++ map (absent_of college session u.now) (one ++ more);
      }
  together one more u v w a b =
      let old = u.db.attendance_records in
      let row = absent_of college session u.now in
      b.appended
      ∙ ap₂ {A = Database} {B = Time}
          (λ d n. record d {
            attendance_records = d.attendance_records ++ map (absent_of college session n) more;
          })
          a.appended a.same_now
      ∙ ap (λ t. record (u.db) { attendance_records = t })
          (append_assoc old (map row one) (map row more)
            ∙ ap (λ t. old ++ t) (sym (map-append row one more)))

  -- Two stretches of the loop.
  both :
      (student : Uuid) (students : List Uuid) (one more : List (Uuid × Uuid)) (u v w : World)
      → Marked (student ∷ []) u one v
      → Marked students v more w
      → Marked (student ∷ students) u (one ++ more) w
  both student students one more u v w a b = record {
    appended = together one more u v w a b;
    covered = (
      subst (λ d. Recorded session d student) (sym b.appended)
          (Recorded-append v.db _ student a.covered.0),
      b.covered,
    );
    same_env = b.same_env ∙ a.same_env;
    same_tenant = b.same_tenant ∙ a.same_tenant;
    same_now = b.same_now ∙ a.same_now;
    same_cache = b.same_cache ∙ a.same_cache;
  }

  mark_one-Ends :
      (student : Uuid) (b : Bool) (w : World)
      → (b ≡ true → Recorded session w.db student)
      → Ends (Marked (student ∷ []) w) (mark_one college session student b w)
  unfolding mark_one
  mark_one-Ends student true w h = pure-Ends _ _ (record {
    appended = ap (λ t. record (w.db) { attendance_records = t }) (sym (append-nil _));
    covered = (h refl, tt);
    same_env = refl;
    same_tenant = refl;
    same_now = refl;
    same_cache = refl;
  })
  mark_one-Ends student false w h = statement-Ends _ _ _ λ id d e.
      let a = insert_absent_inv student _ id d e in
      pure-Ends _ _ (record {
        appended = a;
        covered = (
          subst (λ x. Recorded session x student) (sym a) (Recorded-new w.db w.now (id, student)),
          tt,
        );
        same_env = refl;
        same_tenant = refl;
        same_now = refl;
        same_cache = refl;
      })

  -- A call before the stretch changes nothing that it speaks of.
  after_tick :
      (students : List Uuid) (l : List (Uuid × Uuid)) (w v : World)
      → Marked students (ticked w) l v
      → Marked students w l v
  after_tick students l w v a = record {
    appended = a.appended;
    covered = a.covered;
    same_env = a.same_env;
    same_tenant = a.same_tenant;
    same_now = a.same_now;
    same_cache = a.same_cache;
  }

  -- One round of the loop, and the rest of it.
  mark_next-Ends :
      (student : Uuid) (students : List Uuid) (loop : Svc (List (Uuid × Uuid)))
      → ((v : World) → Ends (Marked students v) (loop v))
      → (w : World)
      → Ends (Marked (student ∷ students) w) (mark_next college session student loop w)
  unfolding mark_next
  mark_next-Ends student students loop rest w =
      let b = has_record session student (view w) in
      let one_m = mark_one college session student b in
      let v = (one_m (ticked w)).1 in
      query-Ends _ w _ (
        bind-Ends one_m _ (ticked w) λ one e1. bind-Ends loop _ v λ more e2.
          let first = (mark_one-Ends student b (ticked w) (seen-Recorded student w)).at one e1 in
          let next = (rest v).at more e2 in
          pure-Ends (one ++ more) (loop v).1 (
            after_tick (student ∷ students) (one ++ more) w (loop v).1
              (both student students one more (ticked w) v (loop v).1 first next)))

  -- The whole loop.
  pub mark_absent-Ends :
      (students : List Uuid) (w : World)
      → Ends (Marked students w) (mark_absent college session students w)
  unfolding mark_absent
  mark_absent-Ends [] w = pure-Ends [] w (record {
    appended = ap (λ t. record (w.db) { attendance_records = t }) (sym (append-nil _));
    covered = tt;
    same_env = refl;
    same_tenant = refl;
    same_now = refl;
    same_cache = refl;
  })
  mark_absent-Ends (student ∷ students) w =
      mark_next-Ends student students (mark_absent college session students)
        (λ v. mark_absent-Ends students v) w
