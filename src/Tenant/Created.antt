-- ===== src/Tenant/Created.antt =====
-- What `CreateCollege` leaves (server/internal/tenant/service.go).
use at_app.Base.{
  ℕ, false, Option, some, List, [], ◌∷◌, ◌++◌, ◌==◌, ◌≡◌, ◌∙◌, refl, ap, arith, subst, sym, suc,
  none, exists_where,
}
use at_app.Store.{Uuid, Text, Role, Database}
use at_app.World.{World, ok, Svc, always, statement}
use at_app.World.Isolation.{begun}
use at_app.World.Outcomes.{
  Ends, ticked, bind-Ends, pure-Ends, statement-ok, with_tenant-Ends, statement-Ends, in_tx-Ends,
}
use at_app.Auth.Accounts.{Bcrypt, user_row, insert_user, hash_password}
use at_app.Auth.Logins.{fail_if-Ends, hash_password-ok}
use at_app.Verification.Signals.{empty_object}
use at_app.Tenant.Uuids.{Bytes, new_uuid_v4}
use at_app.Tenant.Colleges.{
  CreatedCollege, college_row, insert_college, made, new_college_id, insert_college_and_admin,
  create_college,
}

insert_college_inv :
    (id : Uuid) (name : Text) (w : World) (u : Unit {0}) (d : Database)
    → insert_college id name w ≡ some (u, d)
    → (exists_where (λ r. r.id == id) w.db.colleges ≡ false)
      × (d ≡ record (w.db) { colleges = w.db.colleges ++ college_row id name ∷ [] })
unfolding insert_college
insert_college_inv id name w u d h = ground arith

insert_user_inv :
    (college : Uuid) (role : Role) (name email hash : Text) (w : World) (id : Uuid) (d : Database)
    → insert_user college role name email hash w ≡ some (id, d)
    → (exists_where (λ u. u.email == email) w.db.users ≡ false)
      × (d ≡ record (w.db) { users = w.db.users ++ user_row college role name email hash id ∷ [] })
unfolding insert_user
insert_user_inv college role name email hash w id d h = ground arith

user_inserted :
    (college : Uuid) (role : Role) (name email hash : Text) (w : World) (id : Uuid)
    → (statement (insert_user college role name email hash) w).0 ≡ ok id
    → (exists_where (λ u. u.email == email) w.db.users ≡ false)
      × ((statement (insert_user college role name email hash) w).1.db
          ≡ record (w.db) { users = w.db.users ++ user_row college role name email hash id ∷ [] })
user_inserted college role name email hash w id h =
    let (d, f, g) = statement-ok (insert_user college role name email hash) w id h in
    let (no_email, e) = insert_user_inv college role name email hash (ticked w) id d f in
    (no_email, ap (λ v. v.db) g ∙ e)

-- The two rows are new, the college with the column default '{}' as its policy and the user as its
-- administrator, and nothing else has changed.
pub record Provisioned (college : Uuid) (name admin_name email hash : Text) (before : Database)
    (admin : Uuid) (after : Database) : Type 0 where
  pub new_college : exists_where (λ r. r.id == college) before.colleges ≡ false
  pub new_email : exists_where (λ u. u.email == email) before.users ≡ false
  pub rows : after ≡ record before {
    colleges =
        before.colleges
        ++ record { id = college; name = name; verification_policy = empty_object } ∷ [];
    users =
        before.users
        ++ record {
          id = admin;
          college_id = college;
          role = Role.admin;
          name = admin_name;
          email = email;
          password_hash = hash;
          fcm_token = none;
        }
          ∷ [];
  }

module _ (uuid_of : List ℕ → Uuid) (rand : ℕ → Option Bytes) (bcrypt : Bcrypt) where
  insert_college_and_admin-Ends :
      (college : Uuid) (name admin_name email hash : Text) (w : World)
      → Ends
          (λ a v. Provisioned college name admin_name email hash w.db a v.db)
          (insert_college_and_admin uuid_of rand bcrypt college name admin_name email hash w)
  unfolding insert_college_and_admin
  insert_college_and_admin-Ends college name admin_name email hash w =
      with_tenant-Ends _ _ college (
        statement-Ends _ _ _ λ u d h.
          let v : World = ticked (record w { calls = suc w.calls; tenant = some college }) in
          let (no_college, e) = insert_college_inv college name v u d h in
          record {
            at = λ a q.
                let (no_email, g) =
                  user_inserted college Role.admin admin_name email hash (record v { db = d }) a
                    q in
                record {
                  new_college = no_college;
                  new_email =
                      subst (λ x. exists_where (λ u. u.email == email) x.users ≡ false) e no_email;
                  rows =
                      g
                      ∙ ap {A = Database}
                          (λ x. record x {
                            users =
                                x.users ++ user_row college Role.admin admin_name email hash a ∷ [];
                          })
                          e;
                };
          })

  -- The identifier is a UUID of the drawn bytes, the hash is one of the password, and the database
  -- has the two new rows.
  pub record CollegeCreated (name admin_name email password : Text) (before : Database)
      (r : CreatedCollege) (after : Database) : Type 0 where
    pub draw : ℕ
    pub text : List ℕ
    pub drawn : new_uuid_v4 (rand draw) ≡ some text
    pub id : r.id ≡ uuid_of text
    pub hash : Text
    pub hashed_with : (salt : ℕ) × (bcrypt.generate salt password ≡ some hash)
    pub provisioned : Provisioned r.id name admin_name email hash before r.admin_user_id after

  made-ok :
      {college : Uuid} (o : Option (List ℕ))
      → made uuid_of o ≡ ok college
      → (text : List ℕ) × (o ≡ some text) × (college ≡ uuid_of text)
  unfolding made
  made-ok none h = cc
  made-ok (some t) h = (t, refl, ground arith)

  new_college_id-ok :
      (w : World) (college : Uuid)
      → (new_college_id uuid_of rand bcrypt w).0 ≡ ok college
      → (text : List ℕ) × (new_uuid_v4 (rand (w.env.draw w.calls)) ≡ some text)
        × (college ≡ uuid_of text)
        × ((new_college_id uuid_of rand bcrypt w).1 ≡ ticked w)
  unfolding new_college_id
  new_college_id-ok w college h =
      let (t, e, f) = made-ok (new_uuid_v4 (rand (w.env.draw w.calls))) h in (t, e, f, refl)

  pub create_college-Ends :
      (name admin_name email password : Text) (w : World)
      → Ends
          (λ r v. CollegeCreated name admin_name email password w.db r v.db)
          (create_college uuid_of rand bcrypt name admin_name email password w)
  unfolding create_college hash_password
  create_college-Ends name admin_name email password w = fail_if-Ends _ _ _ _ λ given.
      bind-Ends _ _ _ λ college made.
        let (text, drawn, id, e) = new_college_id-ok w college made in
        bind-Ends _ _ _ λ hash hashed.
          let v : World = ticked (ticked w) in
          let m : Svc Uuid =
            insert_college_and_admin uuid_of rand bcrypt college name admin_name email hash in
          in_tx-Ends always m _ v (record {
            at = λ admin q w' y. pure-Ends _ w' (record {
              draw = w.env.draw w.calls;
              text = text;
              drawn = drawn;
              id = id;
              hash = hash;
              hashed_with = (_, (hash_password-ok bcrypt password (ticked w) hash hashed).0);
              provisioned =
                  subst (λ d. Provisioned college name admin_name email hash w.db admin d)
                    (sym y.db)
                    ((insert_college_and_admin-Ends college name admin_name email hash
                        (begun always m v)).at
                      admin q);
            });
          })
