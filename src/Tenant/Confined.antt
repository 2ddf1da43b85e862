-- ===== src/Tenant/Confined.antt =====
-- A new college stays within itself (server/internal/tenant/service.go).
use at_app.Base.{
  ℕ, true, ◌||◌, ◌==◌, Option, none, some, List, ◌∷◌, [], ◌++◌, ◌≡◌, refl, arith, inl, inr,
  Bool-cases, Option-cases, select-insert,
}
use at_app.Store.{Uuid, Text, Role, Database}
use at_app.Store.Rls.{admits}
use at_app.Store.Isolation.{admits-foreign, outside-colleges}
use at_app.World.{World, Svc, ◌>>=◌, pure, continue, in_tx, always}
use at_app.World.Outcomes.{ticked}
use at_app.World.Promises
use at_app.World.Promises.{Follows}
use at_app.World.Isolation.{
  Isolated, Confined, Isolated-IsPromise, Confined-IsPromise, Confined-in_tx,
}
use at_app.Auth.Accounts.{Bcrypt, fail_if, hash_password}
use at_app.Admin.Isolation.{Isolated-db, insert_user-Isolated}
use at_app.Admin.Confined.{hash_password-Confined}
use at_app.Tenant.Uuids.{Bytes, new_uuid_v4}
use at_app.Tenant.Colleges.{
  CreatedCollege, college_row, insert_college, made, new_college_id, insert_college_and_admin,
  create_college,
}

-- The identifier that the bytes make.
abbrev pub college_of_uuid : (List ℕ → Uuid) → Uuid → Option (List ℕ) → Uuid
college_of_uuid uuid_of otherwise none = otherwise
college_of_uuid uuid_of otherwise (some text) = uuid_of text

module _ (c : Uuid) where
  insert_college_inv :
      (id : Uuid) (name : Text) (w : World) (u : Unit {0}) (d : Database)
      → insert_college id name w ≡ some (u, d)
      → (admits w.env.rls w.tenant id ≡ true)
        × (d ≡ record (w.db) { colleges = w.db.colleges ++ college_row id name ∷ [] })
  unfolding insert_college
  insert_college_inv id name w u d h = ground arith

  insert_college-Isolated :
      (id : Uuid) (name : Text) (w : World) (u : Unit {0}) (d : Database)
      → insert_college id name w ≡ some (u, d)
      → Isolated c w (record w { db = d })
  insert_college-Isolated id name w u d h =
      let (a, e) = insert_college_inv id name w u d h in
      Isolated-db c w d λ r t.
        rw e
          (outside-colleges c w.db _ (select-insert _ w.db.colleges _ (admits-foreign c id r t a)))

module _ (uuid_of : List ℕ → Uuid) (rand : ℕ → Option Bytes) (bcrypt : Bcrypt) where
  module _ (name admin_name email password : Text) where
    -- What follows the choice of the identifier.
    provision : Uuid → Svc CreatedCollege
    provision college = do
      hash ← hash_password bcrypt password
      admin_id ←
          in_tx always
            (insert_college_and_admin uuid_of rand bcrypt college name admin_name email hash)
      pure (record { id = college; name = name; admin_user_id = admin_id })

    provision-Confined : (college : Uuid) → Follows (Confined college) (provision college)
    unfolding insert_college_and_admin provision
    provision-Confined college =
        let p = Confined-IsPromise college in
        let q = Isolated-IsPromise college in
        Promises.Follows-bind p _ _ (hash_password-Confined college bcrypt password) λ hash.
          Promises.Follows-bind p _ _
            (Confined-in_tx college _ _ λ u.
              Promises.Follows-bind q _ _
                (Promises.Follows-statement q _ (insert_college-Isolated college college name))
                λ v.
                  Promises.Follows-statement q _
                    (insert_user-Isolated college college Role.admin admin_name email hash))
            λ admin. Promises.Follows-pure p _

    pub create_college-Confined :
        (otherwise : Uuid) (w : World)
        → Confined
            (college_of_uuid uuid_of otherwise (new_uuid_v4 (rand (w.env.draw w.calls))))
            w
            (create_college uuid_of rand bcrypt name admin_name email password w).1
    unfolding create_college new_college_id made ◌>>=◌ continue fail_if provision
    create_college-Confined otherwise w =
        elim (Bool-cases (name == 0 || admin_name == 0 || email == 0 || password == 0)) [
          | inl e ↦ rw e (record { same_env = refl; kept = λ r. refl })
          | inr e ↦ elim (Option-cases (new_uuid_v4 (rand (w.env.draw w.calls)))) [
            | inl n ↦ rw (e, n) (record { same_env = refl; kept = λ r. refl })
            | inr (text, m) ↦
                let k = (provision-Confined (uuid_of text)).at (ticked w) in
                rw (e, m) (record { same_env = k.same_env; kept = λ r. k.kept r })
          ]
        ]
