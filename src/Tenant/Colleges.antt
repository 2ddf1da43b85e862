-- ===== src/Tenant/Colleges.antt =====
-- `CreateCollege` and its endpoint (server/internal/tenant/service.go, handler.go).
use at_app.Base.{
  ℕ, suc, not, ◌&&◌, ◌||◌, ltb, Option, none, some, List, [], ◌∷◌, ◌++◌, ◌==◌, exists_where,
  if◌then◌else◌,
}
use at_app.Store.{Uuid, Text, Role, College, Database}
use at_app.Store.Rls.{admits}
use at_app.World.{
  World, internal, Result, ok, err, Svc, ◌>>=◌, ◌>>◌, pure, statement, with_tenant, in_tx, always,
}
use at_app.Auth.Accounts.{Bcrypt, fail_if, insert_user, hash_password}
use at_app.Auth.Handlers.{Handler, bad_request, respond, answer_with}
use at_app.Verification.Signals.{empty_object}
use at_app.Tenant.Uuids.{Bytes, new_uuid_v4}

pub record CreatedCollege : Type 0 where
  pub id : Uuid
  pub name : Text
  pub admin_user_id : Uuid

-- The column verification_policy has the default '{}'.
abbrev pub college_row : Uuid → Text → College
college_row id name = record { id = id; name = name; verification_policy = empty_object }

-- INSERT INTO colleges (id, name), whose primary key is the identifier
unfoldable pub insert_college : Uuid → Text → World → Option (Unit {0} × Database)
insert_college id name w =
    if admits w.env.rls w.tenant id && not (exists_where (λ r. r.id == id) w.db.colleges)
    then some (tt, record (w.db) { colleges = w.db.colleges ++ college_row id name ∷ [] })
    else none

unfoldable pub made : (List ℕ → Uuid) → Option (List ℕ) → Result Uuid
made uuid_of none = err internal
made uuid_of (some text) = ok (uuid_of text)

-- `uuid_of` is the number of a UUID's text, and `rand` what crypto/rand fills the bytes with.
module _ (uuid_of : List ℕ → Uuid) (rand : ℕ → Option Bytes) (bcrypt : Bcrypt) where
  unfoldable pub new_college_id : Svc Uuid
  unfolding new_uuid_v4 made
  new_college_id w =
      (made uuid_of (new_uuid_v4 (rand (w.env.draw w.calls))), record w { calls = suc w.calls })

  -- The transaction: the college and its first administrator.
  unfoldable pub insert_college_and_admin : Uuid → Text → Text → Text → Text → Svc Uuid
  unfolding insert_college insert_user
  insert_college_and_admin college name admin_name admin_email hash = do
    with_tenant college
    statement (insert_college college name)
    statement (insert_user college Role.admin admin_name admin_email hash)

  unfoldable pub create_college : Text → Text → Text → Text → Svc CreatedCollege
  unfolding new_college_id insert_college_and_admin
  create_college name admin_name admin_email admin_password = do
    fail_if (name == 0 || admin_name == 0 || admin_email == 0 || admin_password == 0) internal
    college ← new_college_id
    hash ← hash_password bcrypt admin_password
    admin_id ← in_tx always (insert_college_and_admin college name admin_name admin_email hash)
    pure (record { id = college; name = name; admin_user_id = admin_id })

  -- `size` is the length of a text in bytes; a body that does not decode is `none`.
  unfoldable pub handle_create_college :
      (Text → ℕ) → Option (Text × Text × Text × Text) → Handler CreatedCollege
  unfolding bad_request respond answer_with
  handle_create_college size none = bad_request "invalid request body"
  handle_create_college size (some (name, admin_name, admin_email, admin_password)) =
      if name == 0 || admin_name == 0 || admin_email == 0 || admin_password == 0
      then bad_request "name, adminName, adminEmail, and adminPassword are required"
      else if ltb (size admin_password) 8
      then bad_request "adminPassword must be at least 8 characters"
      else respond (answer_with 201) (create_college name admin_name admin_email admin_password)
