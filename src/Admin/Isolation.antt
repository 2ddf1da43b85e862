-- ===== src/Admin/Isolation.antt =====
-- Administration serves one tenant (server/internal/admin/service.go).
use at_app.Base.{true, some, ◌⊎◌, inl, inr, [], ◌∷◌, ◌++◌, ◌≡◌, refl, arith, select-insert}
use at_app.Store.{Uuid, Text, Role, Course, Section, Database}
use at_app.Store.Rls.{admits, outside}
use at_app.Store.Isolation.{
  admits-foreign, outside-users, outside-departments, outside-courses, outside-sections,
  outside-enrollments,
}
use at_app.World.{World, new_id}
use at_app.World.Promises.{Follows, Follows-quiet}
use at_app.World.Isolation.{Isolated, Isolated-IsPromise}
use at_app.Auth.Accounts.{Bcrypt, user_row, insert_user, hash_password}
use at_app.Admin.Create.{department_row, insert_department, insert_course, insert_section}
use at_app.Admin.Import.{insert_user_or_skip, insert_enrollment, enrollment_row}

module _ (c : Uuid) where
  -- A write of the tenant whose foreign rows stay.
  pub Isolated-db :
      (w : World) (d : Database)
      → (w.env.rls ≡ true → w.tenant ≡ some c → outside c d ≡ outside c w.db)
      → Isolated c w (record w { db = d })
  Isolated-db w d h = record { same_env = refl; kept = λ r t. (t, h r t) }

  insert_user_inv :
      (college : Uuid) (role : Role) (name email hash : Text) (w : World) (id : Uuid) (d : Database)
      → insert_user college role name email hash w ≡ some (id, d)
      → (admits w.env.rls w.tenant college ≡ true)
        × (d ≡ record (w.db) {
          users = w.db.users ++ user_row college role name email hash (new_id w) ∷ [];
        })
  unfolding insert_user
  insert_user_inv college role name email hash w id d h = ground arith

  pub insert_user-Isolated :
      (college : Uuid) (role : Role) (name email hash : Text) (w : World) (id : Uuid) (d : Database)
      → insert_user college role name email hash w ≡ some (id, d)
      → Isolated c w (record w { db = d })
  insert_user-Isolated college role name email hash w id d h =
      let (a, e) = insert_user_inv college role name email hash w id d h in
      Isolated-db w d λ r t.
        rw e
          (outside-users c w.db _ (select-insert _ w.db.users _ (admits-foreign c college r t a)))

  pub hash_password-Isolated :
      (bcrypt : Bcrypt) (password : Text) → Follows (Isolated c) (hash_password bcrypt password)
  unfolding hash_password
  hash_password-Isolated bcrypt password =
      Follows-quiet (Isolated-IsPromise c) _ (λ w. ground arith)

  insert_department_inv :
      (college : Uuid) (name : Text) (w : World) (id : Uuid) (d : Database)
      → insert_department college name w ≡ some (id, d)
      → (admits w.env.rls w.tenant college ≡ true)
        × (d ≡ record (w.db) {
          departments = w.db.departments ++ department_row college name (new_id w) ∷ [];
        })
  unfolding insert_department
  insert_department_inv college name w id d h = ground arith

  pub insert_department-Isolated :
      (college : Uuid) (name : Text) (w : World) (id : Uuid) (d : Database)
      → insert_department college name w ≡ some (id, d)
      → Isolated c w (record w { db = d })
  insert_department-Isolated college name w id d h =
      let (a, e) = insert_department_inv college name w id d h in
      Isolated-db w d λ r t. rw e (
        outside-departments c w.db _
          (select-insert _ w.db.departments _ (admits-foreign c college r t a)))

  insert_course_inv :
      (row : Uuid → Course) (w : World) (id : Uuid) (d : Database)
      → insert_course row w ≡ some (id, d)
      → (admits w.env.rls w.tenant (row (new_id w)).college_id ≡ true)
        × (d ≡ record (w.db) { courses = w.db.courses ++ row (new_id w) ∷ [] })
  unfolding insert_course
  insert_course_inv row w id d h = ground arith

  pub insert_course-Isolated :
      (row : Uuid → Course) (w : World) (id : Uuid) (d : Database)
      → insert_course row w ≡ some (id, d)
      → Isolated c w (record w { db = d })
  insert_course-Isolated row w id d h =
      let (a, e) = insert_course_inv row w id d h in
      Isolated-db w d λ r t.
        rw e (outside-courses c w.db _ (select-insert _ w.db.courses _ (admits-foreign c _ r t a)))

  insert_section_inv :
      (row : Uuid → Section) (w : World) (id : Uuid) (d : Database)
      → insert_section row w ≡ some (id, d)
      → (admits w.env.rls w.tenant (row (new_id w)).college_id ≡ true)
        × (d ≡ record (w.db) { sections = w.db.sections ++ row (new_id w) ∷ [] })
  unfolding insert_section
  insert_section_inv row w id d h = ground arith

  pub insert_section-Isolated :
      (row : Uuid → Section) (w : World) (id : Uuid) (d : Database)
      → insert_section row w ≡ some (id, d)
      → Isolated c w (record w { db = d })
  insert_section-Isolated row w id d h =
      let (a, e) = insert_section_inv row w id d h in
      Isolated-db w d λ r t.
        rw e
          (outside-sections c w.db _ (select-insert _ w.db.sections _ (admits-foreign c _ r t a)))

  insert_user_or_skip_inv :
      (college : Uuid) (role : Role) (name email hash : Text) (w : World) (u : Unit {0})
      (d : Database)
      → insert_user_or_skip college role name email hash w ≡ some (u, d)
      → (d ≡ w.db)
        ⊎ ((admits w.env.rls w.tenant college ≡ true)
            × (d ≡ record (w.db) {
              users = w.db.users ++ user_row college role name email hash (new_id w) ∷ [];
            }))
  unfolding insert_user_or_skip
  insert_user_or_skip_inv college role name email hash w u d h = ground arith

  pub insert_user_or_skip-Isolated :
      (college : Uuid) (role : Role) (name email hash : Text) (w : World) (u : Unit {0})
      (d : Database)
      → insert_user_or_skip college role name email hash w ≡ some (u, d)
      → Isolated c w (record w { db = d })
  insert_user_or_skip-Isolated college role name email hash w u d h =
      elim (insert_user_or_skip_inv college role name email hash w u d h) [
        | inl e ↦ Isolated-db w d λ r t. rw e refl
        | inr (a, e) ↦ Isolated-db w d λ r t.
            rw e (
              outside-users c w.db _
                (select-insert _ w.db.users _ (admits-foreign c college r t a)))
      ]

  insert_enrollment_inv :
      (college student section : Uuid) (w : World) (u : Unit {0}) (d : Database)
      → insert_enrollment college student section w ≡ some (u, d)
      → (d ≡ w.db)
        ⊎ ((admits w.env.rls w.tenant college ≡ true)
            × (d ≡ record (w.db) {
              enrollments =
                  w.db.enrollments ++ enrollment_row college student section (new_id w) ∷ [];
            }))
  unfolding insert_enrollment
  insert_enrollment_inv college student section w u d h = ground arith

  pub insert_enrollment-Isolated :
      (college student section : Uuid) (w : World) (u : Unit {0}) (d : Database)
      → insert_enrollment college student section w ≡ some (u, d)
      → Isolated c w (record w { db = d })
  insert_enrollment-Isolated college student section w u d h =
      elim (insert_enrollment_inv college student section w u d h) [
        | inl e ↦ Isolated-db w d λ r t. rw e refl
        | inr (a, e) ↦ Isolated-db w d λ r t. rw e (
            outside-enrollments c w.db _
              (select-insert _ w.db.enrollments _ (admits-foreign c college r t a)))
      ]
