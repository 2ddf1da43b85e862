-- ===== src/Auth/Confined.antt =====
-- A password reset stays in the college of the reset token (server/internal/auth/service.go).
use at_app.Base.{
  ℕ, inl, inr, Option-cases, update_where, Bool, true, false, ◌&&◌, ◌==◌, Option, none, some, ◌≡◌,
  refl, arith, select-update_where,
}
use at_app.Store.{Uuid, Text, User, Database}
use at_app.Store.Rls.{admits}
use at_app.Store.Isolation.{foreign, admits-foreign, outside-users}
use at_app.World.{World, Error, always, in_tx, ◌>>=◌, gets, continue}
use at_app.World.Promises
use at_app.World.Promises.{Follows, promise_rules}
use at_app.World.Isolation.{
  Isolated, Confined, Isolated-IsPromise, Confined-IsPromise, Confined-in_tx,
}
use at_app.Auth.Tokens.{Jwt, Token, Secret, Claims, validate_password_reset_token}
use at_app.Auth.Accounts.{
  Bcrypt, writable, update_password, or_raise, fail_if, hash_password, set_password,
  confirm_password_reset,
}
use at_app.Admin.Confined.{hash_password-Confined}

-- The college of a valid reset token.
abbrev pub college_of_reset : Uuid → Option Claims → Uuid
college_of_reset otherwise none = otherwise
college_of_reset otherwise (some claims) = claims.college_id

module _ (c : Uuid) where
  update_password_inv :
      (user : Uuid) (hash : Text) (w : World) (n : ℕ) (d : Database)
      → update_password user hash w ≡ some (n, d)
      → d ≡ record (w.db) {
        users = update_where (writable w user) (λ u. record u { password_hash = hash }) w.db.users;
      }
  unfolding update_password
  update_password_inv user hash w n d h = ground arith

  update_password-Isolated :
      (user : Uuid) (hash : Text) (w : World) (n : ℕ) (d : Database)
      → update_password user hash w ≡ some (n, d)
      → Isolated c w (record w { db = d })
  update_password-Isolated user hash w n d h = record {
    same_env = refl;
    kept = λ r t. (
      t,
      rw (update_password_inv user hash w n d h) (
          outside-users c w.db _ (
            select-update_where _ _ (λ x. record x { password_hash = hash }) w.db.users
              (λ x k.
                touched x (admits w.env.rls w.tenant x.college_id) (x.id == user)
                  (admits-foreign c x.college_id r t) k))),
    );
  }
    where
      touched :
          (x : User) (a b : Bool)
          → (a ≡ true → foreign c x.college_id ≡ false)
          → (a && b) ≡ true
          → (foreign c x.college_id ≡ false) × (foreign c x.college_id ≡ false)
      touched x a b h e = ground arith

  fail_if-Isolated : (b : Bool) (e : Error) → Follows (Isolated c) (fail_if b e)
  unfolding fail_if
  fail_if-Isolated b e = Promises.Follows-quiet (Isolated-IsPromise c) _ (λ w. ground arith)

module _ (jwt : Jwt) (bcrypt : Bcrypt) (secret : Secret) where
  reset-Confined :
      (claims : Claims) (password : Text)
      → Follows (Confined claims.college_id) (
          hash_password bcrypt password >>= λ hash.
          in_tx always (set_password jwt bcrypt secret claims hash))
  unfolding set_password
  reset-Confined claims password =
      Promises.Follows-bind (Confined-IsPromise claims.college_id) _ _
        (hash_password-Confined claims.college_id bcrypt password)
        λ hash. Confined-in_tx claims.college_id _ _ λ u.
          Promises.Follows-bind (Isolated-IsPromise claims.college_id) _ _
            (Promises.Follows-statement (Isolated-IsPromise claims.college_id) _
              (update_password-Isolated claims.college_id claims.user_id hash))
            λ n. fail_if-Isolated claims.college_id _ _

  pub confirm_password_reset-Confined :
      (otherwise : Uuid) (token : Token) (password : Text) (w : World)
      → Confined
          (college_of_reset otherwise (validate_password_reset_token jwt token secret w.now))
          w
          (confirm_password_reset jwt bcrypt secret token password w).1
  unfolding confirm_password_reset gets ◌>>=◌ continue or_raise
  confirm_password_reset-Confined otherwise token password w =
      elim (Option-cases (validate_password_reset_token jwt token secret w.now)) [
        | inl n ↦ rw n (record { same_env = refl; kept = λ r. refl })
        | inr (claims, e) ↦ rw e ((reset-Confined claims password).at w)
      ]
