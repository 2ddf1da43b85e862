-- ===== src/World/Total.antt =====
-- Steps that always return a value, and transactions that only such steps follow.
use at_app.Base.{ℕ, String, Bool, true, false, ◌≡◌, refl, arith}
use at_app.Store.{Time}
use at_app.World.{
  World, Cache, Message, Error, Result, ok, err, Svc, continue, ◌>>=◌, pure, gets, redis_do,
  publish, in_tx, reject_if,
}
use at_app.World.Atomic.{in_tx-err}

-- The method returns a value in every world.
pub record Total {A : Type 0} (m : Svc A) : Type 0 where
  pub returns : (w : World) → (a : A) × ((m w).0 ≡ ok a)

pub pure-Total : {A : Type 0} (a : A) → Total (pure a)
unfolding pure
pure-Total a = record { returns = λ w. (a, refl) }

pub gets-Total : {A : Type 0} (f : World → A) → Total (gets f)
unfolding gets
gets-Total f = record { returns = λ w. (f w, refl) }

pub redis_do-Total : (f : Time → Cache → Cache) → Total (redis_do f)
unfolding redis_do
redis_do-Total f = record { returns = λ w. (tt, ground arith) }

pub publish-Total : (m : Message) → Total (publish m)
unfolding publish
publish-Total m = record { returns = λ w. (tt, ground arith) }

module _ {A B : Type 0} (m : Svc A) (k : A → Svc B) where
  continue-ok : (r : Result A) (v : World) (a : A) → r ≡ ok a → continue r k v ≡ k a v
  unfolding continue
  continue-ok (ok b) v a h = ground arith
  continue-ok (err e) v a h = cc

  pub bind-Total : Total m → ((a : A) → Total (k a)) → Total (m >>= k)
  unfolding ◌>>=◌
  bind-Total p q = record {
    returns = λ w.
        let (a, e) = p.returns w in
        let (b, f) = (q a).returns (m w).1 in (b, rw (continue-ok (m w).0 (m w).1 a e) f);
  }

  continue-err :
      (r : Result A) (v : World) (e : Error)
      → ((a : A) → Total (k a))
      → (continue r k v).0 ≡ err e
      → (r ≡ err e) × ((continue r k v).1 ≡ v)
  unfolding continue
  continue-err (ok b) v e q h = let (x, y) = (q b).returns v in cc
  continue-err (err d) v e q h = (cc, refl)

-- If only steps that always return follow the transaction, an error leaves the database as it was.
pub in_tx_then-err :
    {A B : Type 0} (commits : A → Bool) (m : Svc A) (k : A → Svc B) (w : World) (e : Error)
    → ((a : A) → Total (k a))
    → ((in_tx commits m >>= k) w).0 ≡ err e
    → ((in_tx commits m >>= k) w).1.db ≡ w.db
unfolding ◌>>=◌
in_tx_then-err commits m k w e q h =
    let (x, y) =
      continue-err (in_tx commits m) k (in_tx commits m w).0 (in_tx commits m w).1 e q h in
    rw y (in_tx-err commits m w e x)

-- A guard in front keeps that.
pub reject_if_then-err :
    {B : Type 0} (b : Bool) (n : ℕ) (s : String) (k : Unit {0} → Svc B) (w : World) (e : Error)
    → ((u : World) → (k tt u).0 ≡ err e → (k tt u).1.db ≡ u.db)
    → ((reject_if b n s >>= k) w).0 ≡ err e
    → ((reject_if b n s >>= k) w).1.db ≡ w.db
unfolding ◌>>=◌ continue reject_if
reject_if_then-err true n s k w e q h = refl
reject_if_then-err false n s k w e q h = q w h
