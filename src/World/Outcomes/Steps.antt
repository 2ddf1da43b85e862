-- ===== src/World/Outcomes/Steps.antt =====
-- What holds when a step of a method returns a value.
use at_app.Base.{
  ℕ, suc, Bool, false, Option, none, some, String, ◌≡◌, refl, subst, ◌∙◌, arith, ap, inl, inr,
  Bool-cases, Option-cases, if◌then◌else◌, [], ◌∷◌, ◌++◌,
}
use at_app.Store.{Uuid, Time, Database}
use at_app.World.{
  World, Cache, Entry, Message, Error, Result, ok, err, Svc, continue, ◌>>=◌, pure, query,
  try_query, statement, with_tenant, or_reject, or_fail, reject_if, redis_get, redis_do, redis_must,
  redis_ttl, publish, view, live,
}
use at_app.World.Promises.{statement_down, statement_refused, statement_writes}

-- If a value is returned, it and the world behind satisfy `P`.
pub record Ends {B : Type 0} (P : B → World → Type 0) (x : Result B × World) : Type 0 where
  pub at : (b : B) → x.0 ≡ ok b → P b x.1

-- The world behind one call of a service.
abbrev pub ticked : World → World
ticked w = record w { calls = suc w.calls }

ok-injective : {A : Type 0} {a b : A} → ok a ≡ ok b → a ≡ b
ok-injective h = cc

module _ {B : Type 0} {P : B → World → Type 0} where
  pub pure-Ends : (b : B) (w : World) → P b w → Ends P (pure b w)
  unfolding pure
  pure-Ends b w h = record { at = λ x e. subst (λ y. P y w) (ok-injective e) h }

  pub err-Ends : (e : Error) (w : World) → Ends P (err e, w)
  err-Ends e w = record { at = λ b h. cc }

module _ {A B : Type 0} {P : B → World → Type 0} (m : Svc A) (k : A → Svc B) (w : World) where
  -- The rule for any first step.
  pub bind-Ends : ((a : A) → (m w).0 ≡ ok a → Ends P (k a (m w).1)) → Ends P ((m >>= k) w)
  unfolding ◌>>=◌
  bind-Ends h = go (m w).0 (m w).1 h
    where
      go :
          (r : Result A) (v : World)
          → ((a : A) → r ≡ ok a → Ends P (k a v))
          → Ends P (continue r k v)
      go (ok a) v f = unfold continue in f a refl
      go (err e) v f = unfold continue in record { at = λ b q. cc }

pub query-ok :
    {A : Type 0} (f : Database → A) (w : World) (a : A)
    → (query f w).0 ≡ ok a
    → (a ≡ f (view w)) × ((query f w).1 ≡ ticked w)
unfolding query
query-ok f w a h = ground arith

pub try_query-ok :
    {A : Type 0} (f : Database → A) (w : World) (a : Option A)
    → (try_query f w).0 ≡ ok a
    → (a ≡ (if w.env.down w.calls then none else some (f (view w))))
      × ((try_query f w).1 ≡ ticked w)
unfolding try_query
try_query-ok f w a h = ground arith

pub redis_get-ok :
    {A : Type 0} (f : Cache → Option (Entry A)) (w : World) (a : Option A)
    → (redis_get f w).0 ≡ ok a
    → (a ≡ (if w.env.down w.calls then none else live w.now (f w.cache)))
      × ((redis_get f w).1 ≡ ticked w)
unfolding redis_get
redis_get-ok f w a h = ground arith

pub or_reject-ok :
    {A : Type 0} (o : Option A) (n : ℕ) (s : String) (w : World) (a : A)
    → (or_reject o n s w).0 ≡ ok a
    → (o ≡ some a) × ((or_reject o n s w).1 ≡ w)
unfolding or_reject
or_reject-ok o n s w a h = ground arith

pub or_fail-ok :
    {A : Type 0} (o : Option A) (w : World) (a : A)
    → (or_fail o w).0 ≡ ok a
    → (o ≡ some a) × ((or_fail o w).1 ≡ w)
unfolding or_fail
or_fail-ok o w a h = ground arith

pub reject_if-ok :
    (b : Bool) (n : ℕ) (s : String) (w : World) (u : Unit {0})
    → (reject_if b n s w).0 ≡ ok u
    → (b ≡ false) × ((reject_if b n s w).1 ≡ w)
unfolding reject_if
reject_if-ok b n s w u h = ground arith

pub with_tenant-ok :
    (c : Uuid) (w : World) (u : Unit {0})
    → (with_tenant c w).0 ≡ ok u
    → (with_tenant c w).1 ≡ record w { calls = suc w.calls; tenant = some c }
unfolding with_tenant ◌>>=◌
with_tenant-ok c w u h = ground arith

pub statement-ok :
    {A : Type 0} (f : World → Option (A × Database)) (w : World) (a : A)
    → (statement f w).0 ≡ ok a
    → (d : Database) × (f (ticked w) ≡ some (a, d))
      × ((statement f w).1 ≡ record w { calls = suc w.calls; db = d })
statement-ok f w a h = elim (Bool-cases (w.env.down w.calls)) [
  | inl e ↦ let k = rw (statement_down f w e) at h in cc
  | inr e ↦ elim (Option-cases (f (ticked w))) [
    | inl n ↦ let k = rw (statement_refused f w e n) at h in cc
    | inr (x, n) ↦
        let step = statement_writes f w x.0 x.1 e n in
        let k = rw step at h in
        (x.1, n ∙ ap (λ y. some (y, x.1)) (ok-injective k), ap (λ y. y.1) step)
  ]
]

pub redis_ttl-ok :
    {A : Type 0} (f : Cache → Option (Entry A)) (w : World) (a : ℕ)
    → (redis_ttl f w).0 ≡ ok a
    → (redis_ttl f w).1 ≡ ticked w
unfolding redis_ttl
redis_ttl-ok f w a h = ground arith

pub publish-ok :
    (m : Message) (w : World) (u : Unit {0})
    → (publish m w).0 ≡ ok u
    → (publish m w).1 ≡ record w {
      calls = suc w.calls;
      bus = if w.env.down w.calls then w.bus else w.bus ++ m ∷ [];
    }
unfolding publish
publish-ok m w u h = ground arith

pub redis_do-ok :
    (f : Time → Cache → Cache) (w : World) (u : Unit {0})
    → (redis_do f w).0 ≡ ok u
    → (redis_do f w).1 ≡ record w {
      calls = suc w.calls;
      cache = if w.env.down w.calls then w.cache else f w.now w.cache;
    }
unfolding redis_do
redis_do-ok f w u h = ground arith

pub redis_must-ok :
    (f : Time → Cache → Cache) (w : World) (u : Unit {0})
    → (redis_must f w).0 ≡ ok u
    → (redis_must f w).1 ≡ record w { calls = suc w.calls; cache = f w.now w.cache }
unfolding redis_must
redis_must-ok f w u h = ground arith
