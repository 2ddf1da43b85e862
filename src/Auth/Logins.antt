-- ===== src/Auth/Logins.antt =====
-- What a login, a signup and a password reset leave behind (server/internal/auth/service.go).
use at_app.Base.{
  ℕ, Bool, true, false, ◌&&◌, Option, none, some, ◌==◌, ◌≡◌, refl, sym, ◌∙◌, ap, arith,
  exists_where, count_where, count_where-eq-zero, update_where, not-false, Bool-cases, inl, inr,
  ==-refl,
}
use at_app.Store.{Uuid, Text, Database, User}
use at_app.Store.Upsert.{exists_where-updated}
use at_app.World.{World, Error, user_not_found, ok, Svc, ◌>>=◌, always}
use at_app.World.Outcomes.{
  Ends, bind-Ends, pure-Ends, gets-Ends, statement-Ends, with_tenant-Ends, ticked,
}
use at_app.World.Isolation.{begun}
use at_app.World.Atomic.{in_tx-ok}
use at_app.Auth.Tokens.{
  Jwt, Token, Secret, TokenPair, Claims, generate_token_pair, validate_password_reset_token,
}
use at_app.Auth.Accounts.{
  Bcrypt, UserDto, role_text, find_user, lookup, or_raise, update_password, writable, fail_if,
  login, hashed, hash_password, set_password, confirm_password_reset,
}

or_raise-ok :
    {A : Type 0} (o : Option A) (e : Error) (w : World) (a : A)
    → (or_raise o e w).0 ≡ ok a
    → (o ≡ some a) × ((or_raise o e w).1 ≡ w)
unfolding or_raise
or_raise-ok o e w a h = ground arith

lookup-ok :
    (email : Text) (w : World) (o : Option User)
    → (lookup email w).0 ≡ ok o
    → (o ≡ find_user email w.db) × ((lookup email w).1 ≡ ticked w)
unfolding lookup
lookup-ok email w o h = ground arith

fail_if-ok :
    (b : Bool) (e : Error) (w : World) (u : Unit {0})
    → (fail_if b e w).0 ≡ ok u
    → (b ≡ false) × ((fail_if b e w).1 ≡ w)
unfolding fail_if
fail_if-ok b e w u h = ground arith

module _ {B : Type 0} {P : B → World → Type 0} {A : Type 0} (k : A → Svc B) (w : World) where
  or_raise-Ends :
      (o : Option A) (e : Error)
      → ((a : A) → o ≡ some a → Ends P (k a w))
      → Ends P ((or_raise o e >>= k) w)
  or_raise-Ends o e h = bind-Ends _ k w λ a q. let (x, y) = or_raise-ok o e w a q in rw y (h a x)

module _ {B : Type 0} {P : B → World → Type 0} (k : Option User → Svc B) (w : World) where
  lookup-Ends :
      (email : Text)
      → Ends P (k (find_user email w.db) (ticked w))
      → Ends P ((lookup email >>= k) w)
  lookup-Ends email h = bind-Ends _ k w λ a q. let (x, y) = lookup-ok email w a q in rw (x, y) h

module _ {B : Type 0} {P : B → World → Type 0} (k : Unit {0} → Svc B) (w : World) where
  pub fail_if-Ends :
      (b : Bool) (e : Error) → (b ≡ false → Ends P (k tt w)) → Ends P ((fail_if b e >>= k) w)
  fail_if-Ends b e h = bind-Ends _ k w λ u q. let (x, y) = fail_if-ok b e w u q in rw y (h x)

hashed-ok : (o : Option Text) (x : Text) → hashed o ≡ ok x → o ≡ some x
unfolding hashed
hashed-ok none x h = cc
hashed-ok (some y) x h = cc

pub hash_password-ok :
    (bcrypt : Bcrypt) (password : Text) (w : World) (x : Text)
    → (hash_password bcrypt password w).0 ≡ ok x
    → (bcrypt.generate (w.env.draw w.calls) password ≡ some x)
      × ((hash_password bcrypt password w).1 ≡ ticked w)
unfolding hash_password
hash_password-ok bcrypt password w x h =
    (hashed-ok (bcrypt.generate (w.env.draw w.calls) password) x h, refl)

module _ (jwt : Jwt) (bcrypt : Bcrypt) (secret : Secret) where
  -- The user of the email has the password, and the tokens are issued for that user.
  pub record LoggedIn (email password : Text) (w : World) (r : TokenPair × UserDto) (v : World)
      : Type 0 where
    pub user : User
    pub found : find_user email w.db ≡ some user
    pub password_matches : bcrypt.compare user.password_hash password ≡ true
    pub issued :
        generate_token_pair jwt user.id (role_text user.role) user.college_id secret w.now
        ≡ some r.0
    pub about :
        ((r.1).id ≡ user.id) × ((r.1).role ≡ user.role) × ((r.1).college_id ≡ user.college_id)
    pub db : v.db ≡ w.db

  pub login-Ends :
      (email password : Text) (w : World)
      → Ends (LoggedIn email password w) (login jwt bcrypt secret email password w)
  unfolding login
  login-Ends email password w = lookup-Ends _ _ email (
      or_raise-Ends _ _ _ _ λ u found. fail_if-Ends _ _ _ _ λ matches. gets-Ends _ _ _ (
        or_raise-Ends _ _ _ _ λ tokens issued. pure-Ends _ _ (record {
          user = u;
          found = found;
          password_matches = not-false _ matches;
          issued = issued;
          about = (refl, refl, refl);
          db = refl;
        })))

  some_row :
      (user : Uuid) (hash : Text) (w : World) (n : ℕ) (d : Database)
      → update_password user hash w ≡ some (n, d)
      → (n == 0) ≡ false
      → exists_where (λ u. u.id == user && u.password_hash == hash) d.users ≡ true
  unfolding update_password
  some_row user hash w n d h e =
      let g : d.users
          ≡ update_where (writable w user) (λ u. record u { password_hash = hash }) w.db.users =
        ground (arith, h) in
      let m : count_where (writable w user) w.db.users ≡ n = ground (arith, h) in
      elim (Bool-cases (exists_where (writable w user) w.db.users)) [
        | inl t ↦ rw g (
            exists_where-updated _ (writable w user) _ w.db.users
              (λ u k. ground (arith, k, ==-refl hash)) t)
        | inr f ↦
            let z = count_where-eq-zero (writable w user) w.db.users f in
            let q : (n == 0) ≡ true = rw (sym m, z) refl in cc
      ]

  -- The reset token was valid for an identity, and a user with that identifier has the hash of the
  -- new password.
  pub record PasswordSet (token : Token) (password : Text) (w v : World) : Type 0 where
    pub claims : Claims
    pub authorized : validate_password_reset_token jwt token secret w.now ≡ some claims
    pub hash : Text
    pub hashed_with : (salt : ℕ) × (bcrypt.generate salt password ≡ some hash)
    pub stored :
        exists_where (λ u. u.id == claims.user_id && u.password_hash == hash) v.db.users ≡ true

  set_password-Ends :
      (c : Claims) (hash : Text) (w : World)
      → Ends
          (λ u v.
            exists_where (λ u. u.id == c.user_id && u.password_hash == hash) v.db.users ≡ true)
          (set_password jwt bcrypt secret c hash w)
  unfolding set_password
  set_password-Ends c hash w = with_tenant-Ends _ _ c.college_id (
      statement-Ends _ _ _ λ n d e. record {
        at = λ u q.
            let (x, y) = fail_if-ok (n == 0) user_not_found _ u q in
            rw y (some_row c.user_id hash _ n d e x);
      })

  pub confirm_password_reset-Ends :
      (token : Token) (password : Text) (w : World)
      → Ends
          (λ u v. PasswordSet token password w v)
          (confirm_password_reset jwt bcrypt secret token password w)
  unfolding confirm_password_reset
  confirm_password_reset-Ends token password w = gets-Ends _ _ _ (
      or_raise-Ends _ _ _ _ λ c valid. bind-Ends _ _ _ λ hash made. record {
        at = λ u q.
            let m = set_password jwt bcrypt secret c hash in
            let v = (hash_password bcrypt password w).1 in
            let (x, y) = in_tx-ok always m v u q in
            record {
              claims = c;
              authorized = valid;
              hash = hash;
              hashed_with = (_, (hash_password-ok bcrypt password w hash made).0);
              stored =
                  ap (λ d. exists_where (λ u. u.id == c.user_id && u.password_hash == hash) d.users)
                    y.db
                  ∙ (set_password-Ends c hash (begun always m v)).at u x;
            };
      })
