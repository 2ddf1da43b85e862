-- ===== src/World/Promises.antt =====
-- What a method promises about the worlds before and after it, built up along its `do` block.
use at_app.Base.{
  ℕ, suc, Bool, true, false, Option, none, some, String, ◌≡◌, refl, arith, if◌then◌else◌, inl, inr,
  Bool-cases, Option-cases,
}
use at_app.Store.{Time, Database}
use at_app.World.Defs.{
  Entry, Cache, Message, World, Error, internal, Result, ok, err, Svc, continue, ◌>>=◌,
}
use at_app.World.Calls.{
  pure, raise, gets, reach, call, reject_if, or_reject, or_fail, query, try_query, statement,
  publish, redis_get, redis_do, redis_must, redis_ttl,
}

-- The step changed neither the database nor the tenant.
pub record IsQuiet (w w' : World) : Type 0 where
  pub same_env : w'.env ≡ w.env
  pub same_tenant : w'.tenant ≡ w.tenant
  pub same_db : w'.db ≡ w.db

-- A relation that composes and holds of every quiet step.
pub record IsPromise (R : World → World → Type 0) : Type 0 where
  pub quiet : (w w' : World) → IsQuiet w w' → R w w'
  pub trans : (u v w : World) → R u v → R v w → R u w

pub record Follows (R : World → World → Type 0) {A : Type 0} (m : Svc A) : Type 0 where
  pub at : (w : World) → R w (m w).1

module _ {R : World → World → Type 0} (p : IsPromise R) where
  pub Follows-quiet : {A : Type 0} (m : Svc A) → ((w : World) → IsQuiet w (m w).1) → Follows R m
  Follows-quiet m q = record { at = λ w. p.quiet w (m w).1 (q w) }

module _ {R : World → World → Type 0} (p : IsPromise R) {A : Type 0} where
  pub Follows-pure : (a : A) → Follows R (pure a)
  unfolding pure
  Follows-pure a =
      Follows-quiet p _ (λ w. record { same_env = refl; same_tenant = refl; same_db = refl })

  pub Follows-raise : (e : Error) → Follows R (raise {A = A} e)
  unfolding raise
  Follows-raise e =
      Follows-quiet p _ (λ w. record { same_env = refl; same_tenant = refl; same_db = refl })

  pub Follows-gets : (f : World → A) → Follows R (gets f)
  unfolding gets
  Follows-gets f =
      Follows-quiet p _ (λ w. record { same_env = refl; same_tenant = refl; same_db = refl })

  pub Follows-or_reject : (o : Option A) (n : ℕ) (s : String) → Follows R (or_reject o n s)
  unfolding or_reject
  Follows-or_reject o n s = Follows-quiet p _ (λ w. ground arith)

  pub Follows-or_fail : (o : Option A) → Follows R (or_fail o)
  unfolding or_fail
  Follows-or_fail o = Follows-quiet p _ (λ w. ground arith)

  pub Follows-query : (f : Database → A) → Follows R (query f)
  unfolding query
  Follows-query f = Follows-quiet p _ (λ w. ground arith)

  pub Follows-try_query : (f : Database → A) → Follows R (try_query f)
  unfolding try_query
  Follows-try_query f = Follows-quiet p _ (λ w. ground arith)

  pub Follows-redis_get : (f : Cache → Option (Entry A)) → Follows R (redis_get f)
  unfolding redis_get
  Follows-redis_get f = Follows-quiet p _ (λ w. ground arith)

  pub Follows-if :
      (b : Bool) (m n : Svc A) → Follows R m → Follows R n → Follows R (if b then m else n)
  Follows-if true m n hm hn = hm
  Follows-if false m n hm hn = hn

module _ {R : World → World → Type 0} (p : IsPromise R) where
  pub Follows-call : Follows R call
  unfolding call
  Follows-call = Follows-quiet p _ (λ w. ground arith)

  pub Follows-reach : Follows R reach
  unfolding reach
  Follows-reach = Follows-quiet p _ (λ w. ground arith)

  pub Follows-reject_if : (b : Bool) (n : ℕ) (s : String) → Follows R (reject_if b n s)
  unfolding reject_if
  Follows-reject_if b n s = Follows-quiet p _ (λ w. ground arith)

  pub Follows-publish : (m : Message) → Follows R (publish m)
  unfolding publish
  Follows-publish m = Follows-quiet p _ (λ w. ground arith)

  pub Follows-redis_do : (f : Time → Cache → Cache) → Follows R (redis_do f)
  unfolding redis_do
  Follows-redis_do f = Follows-quiet p _ (λ w. ground arith)

  pub Follows-redis_must : (f : Time → Cache → Cache) → Follows R (redis_must f)
  unfolding redis_must
  Follows-redis_must f = Follows-quiet p _ (λ w. ground arith)

  pub Follows-redis_ttl : {A : Type 0} (f : Cache → Option (Entry A)) → Follows R (redis_ttl f)
  unfolding redis_ttl
  Follows-redis_ttl f = Follows-quiet p _ (λ w. ground arith)

module _ {R : World → World → Type 0} (p : IsPromise R) {A B : Type 0} where
  Follows-continue :
      (r : Result A) (f : A → Svc B) → ((a : A) → Follows R (f a)) → Follows R (continue r f)
  unfolding continue
  Follows-continue (ok a) f hf = hf a
  Follows-continue (err e) f hf =
      Follows-quiet p _ (λ w. record { same_env = refl; same_tenant = refl; same_db = refl })

  pub Follows-bind :
      (m : Svc A) (f : A → Svc B) → Follows R m → ((a : A) → Follows R (f a)) → Follows R (m >>= f)
  unfolding ◌>>=◌
  Follows-bind m f hm hf = record {
    at = λ w. p.trans w (m w).1 _ (hm.at w) ((Follows-continue (m w).0 f hf).at (m w).1);
  }

module _ {A : Type 0} (f : World → Option (A × Database)) (w : World) where
  pub statement_down :
      w.env.down w.calls ≡ true → statement f w ≡ (err internal, record w { calls = suc w.calls })
  unfolding statement
  statement_down h = ground arith

  pub statement_refused :
      w.env.down w.calls ≡ false
      → f (record w { calls = suc w.calls }) ≡ none
      → statement f w ≡ (err internal, record w { calls = suc w.calls })
  unfolding statement
  statement_refused h n = ground arith

  pub statement_writes :
      (a : A) (d : Database)
      → w.env.down w.calls ≡ false
      → f (record w { calls = suc w.calls }) ≡ some (a, d)
      → statement f w ≡ (ok a, record w { calls = suc w.calls; db = d })
  unfolding statement
  statement_writes a d h n = ground arith

module _ {R : World → World → Type 0} (p : IsPromise R) {A : Type 0} where
  -- A write keeps the promise if every row set that it may leave does.
  pub Follows-statement :
      (f : World → Option (A × Database))
      → ((w : World) (a : A) (d : Database) → f w ≡ some (a, d) → R w (record w { db = d }))
      → Follows R (statement f)
  Follows-statement f h = record { at = at_world }
    where
      at_world : (w : World) → R w (statement f w).1
      at_world w =
          let w' : World = record w { calls = suc w.calls } in
          elim (Bool-cases (w.env.down w.calls)) [
            | inl e ↦ rw (statement_down f w e) (p.quiet w _ (ground arith))
            | inr e ↦ elim (Option-cases (f w')) [
              | inl n ↦ rw (statement_refused f w e n) (p.quiet w _ (ground arith))
              | inr (x, n) ↦
                  rw (statement_writes f w x.0 x.1 e n)
                    (p.trans w w' _ (p.quiet w w' (ground arith)) (h w' x.0 x.1 n))
            ]
          ]

pub ruleset promise_rules = (
  Follows-redis_must, Follows-redis_ttl, Follows-pure, Follows-raise, Follows-gets,
  Follows-or_reject, Follows-or_fail, Follows-query, Follows-try_query, Follows-redis_get,
  Follows-if, Follows-call, Follows-reject_if, Follows-publish, Follows-redis_do, Follows-bind,
)
