-- ===== src/Auth/Accounts.antt =====
-- `Service` (server/internal/auth/service.go): login, signup, password resets and refresh.
-- The packages golang-jwt and bcrypt, and the sender of emails, are parameters.
use at_app.Base.{
  ℕ, suc, Bool, true, false, not, ◌&&◌, Option, none, some, [], ◌∷◌, ◌++◌, ◌==◌, select, first,
  exists_where, count_where, update_where, if◌then◌else◌,
}
use at_app.Store.{Uuid, Text, Database, User, Role}
use at_app.Store.Rls.{admits}
use at_app.World.{
  World, Error, internal, invalid_credentials, user_not_found, Result, ok, err, Svc, ◌>>=◌, ◌>>◌,
  pure, gets, call, statement, new_id, with_tenant, in_tx, always,
}
use at_app.Auth.Tokens.{
  Jwt, Token, Secret, TokenPair, Claims, generate_token_pair, generate_password_reset_token,
  validate_refresh_token, validate_password_reset_token,
}

-- `CompareHashAndPassword`, and `GenerateFromPassword` with the salt that it draws.
pub record Bcrypt : Type 0 where
  pub compare : Text → Text → Bool
  pub generate : ℕ → Text → Option Text

pub record UserDto : Type 0 where
  pub id : Uuid
  pub name : Text
  pub email : Text
  pub role : Role
  pub college_id : Uuid

-- The text of a role: what the token carries.
unfoldable pub role_text : Role → Text
role_text Role.student = 2
role_text Role.teacher = 3
role_text Role.admin = 4
role_text (Role.other t) = t

-- get_user_for_auth($1), a SECURITY DEFINER function: every tenant's users
unfoldable pub find_user : Text → Database → Option User
find_user email d = first (select (λ u. u.email == email) d.users)

-- The function is called outside any transaction, and reads the whole table.
unfoldable pub lookup : Text → Svc (Option User)
unfolding call gets ◌>>=◌
lookup email = do call; gets (λ w. find_user email w.db)

unfoldable pub or_raise : {A : Type 0} → Option A → Error → Svc A
or_raise none e w = (err e, w)
or_raise (some a) e w = (ok a, w)

abbrev pub user_row : Uuid → Role → Text → Text → Text → Uuid → User
user_row college role name email hash new = record {
  id = new;
  college_id = college;
  role = role;
  name = name;
  email = email;
  password_hash = hash;
  fcm_token = none;
}

-- role != "student" && role != "teacher" && role != "admin", negated
unfoldable pub is_valid_role : Role → Bool
is_valid_role (Role.other t) = false
is_valid_role _ = true

-- REFERENCES colleges(id)
abbrev pub has_college : Database → Uuid → Bool
has_college d college = exists_where (λ r. r.id == college) d.colleges

-- INSERT INTO users … RETURNING id, under UNIQUE(email) and CHECK (role IN …)
unfoldable pub insert_user : Uuid → Role → Text → Text → Text → World → Option (Uuid × Database)
insert_user college role name email hash w =
    if admits w.env.rls w.tenant college
      && is_valid_role role
      && has_college w.db college
      && not (exists_where (λ u. u.email == email) w.db.users)
    then some (
      new_id w,
      record (w.db) { users = w.db.users ++ user_row college role name email hash (new_id w) ∷ [] },
    )
    else none

abbrev pub writable : World → Uuid → User → Bool
writable w user u = admits w.env.rls w.tenant u.college_id && u.id == user

-- UPDATE users SET password_hash = $1 WHERE id = $2, with the number of rows
unfoldable pub update_password : Uuid → Text → World → Option (ℕ × Database)
update_password user hash w = some (
  count_where (writable w user) w.db.users,
  record (w.db) {
    users = update_where (writable w user) (λ u. record u { password_hash = hash }) w.db.users;
  },
)

unfoldable pub fail_if : Bool → Error → Svc (Unit {0})
fail_if true e w = (err e, w)
fail_if false e w = (ok tt, w)

unfoldable pub hashed : Option Text → Result Text
hashed none = err internal
hashed (some h) = ok h

-- One salt, and the number used up.
unfoldable pub hash_password : Bcrypt → Text → Svc Text
unfolding hashed
hash_password bcrypt password w =
    (hashed (bcrypt.generate (w.env.draw w.calls) password), record w { calls = suc w.calls })

module _ (jwt : Jwt) (bcrypt : Bcrypt) (secret : Secret) where
  open bcrypt use {compare}

  unfoldable pub login : Text → Text → Svc (TokenPair × UserDto)
  login email password = do
    found ← lookup email
    u ← or_raise found invalid_credentials
    fail_if (not (compare u.password_hash password)) invalid_credentials
    now ← gets (λ w. w.now)
    tokens ←
        or_raise (generate_token_pair jwt u.id (role_text u.role) u.college_id secret now) internal
    pure (
      tokens,
      record { id = u.id; name = u.name; email = email; role = u.role; college_id = u.college_id },
    )

  -- The transaction of a signup.
  unfoldable pub insert_account : Uuid → Role → Text → Text → Text → Svc Uuid
  insert_account college role name email hash = do
    with_tenant college
    statement (insert_user college role name email hash)

  unfoldable pub sign_up : Uuid → Role → Text → Text → Text → Svc UserDto
  sign_up college role name email password = do
    fail_if (not (is_valid_role role)) internal
    hash ← hash_password bcrypt password
    id ← in_tx always (insert_account college role name email hash)
    pure (record { id = id; name = name; email = email; role = role; college_id = college })

  -- `send` delivers the token to the address, or fails.
  unfoldable pub request_password_reset :
      (Text → Text → Token → Svc (Unit {0})) → Text → Svc (Unit {0})
  request_password_reset send email = do
    found ← lookup email
    u ← or_raise found user_not_found
    now ← gets (λ w. w.now)
    token ←
        or_raise (generate_password_reset_token jwt u.id (role_text u.role) u.college_id secret now)
          internal
    send email u.name token

  -- The transaction: no row is `ErrUserNotFound`.
  unfoldable pub set_password : Claims → Text → Svc (Unit {0})
  set_password c hash = do
    with_tenant c.college_id
    n ← statement (update_password c.user_id hash)
    fail_if (n == 0) user_not_found

  unfoldable pub confirm_password_reset : Token → Text → Svc (Unit {0})
  confirm_password_reset token password = do
    now ← gets (λ w. w.now)
    c ← or_raise (validate_password_reset_token jwt token secret now) internal
    hash ← hash_password bcrypt password
    in_tx always (set_password c hash)

  unfoldable pub refresh : Token → Svc TokenPair
  refresh token = do
    now ← gets (λ w. w.now)
    c ← or_raise (validate_refresh_token jwt token secret now) internal
    or_raise (generate_token_pair jwt c.user_id c.role c.college_id secret now) internal
