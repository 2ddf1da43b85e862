-- ===== src/World/Atomic.antt =====
-- What a transaction leaves behind: all of its writes, or none of them.
use at_app.Base.{if◌then◌else◌, Bool, ◌≡◌, refl, arith, inl, inr, Bool-cases}
use at_app.Store.{Database}
use at_app.World.{World, Error, Result, ok, err, Svc, in_tx, finish, never}
use at_app.World.Isolation.{begun, in_tx_down, in_tx_up}

-- The world after a transaction that has returned a value, by the end `v` of its body.
pub record Ended {A : Type 0} (commits : A → Bool) (a : A) (before : Database) (v w' : World)
    : Type 0 where
  pub db : w'.db ≡ (if commits a then v.db else before)
  pub cache : w'.cache ≡ v.cache
  pub now : w'.now ≡ v.now
  pub bus : w'.bus ≡ v.bus
  pub env : w'.env ≡ v.env

module _ {A : Type 0} (commits : A → Bool) (before : Database) where
  finish-err :
      (r : Result A) (w : World) (e : Error)
      → (finish commits before r w).0 ≡ err e
      → (finish commits before r w).1.db ≡ before
  unfolding finish
  finish-err r w e h = ground arith

  finish-ok :
      (r : Result A) (w : World) (a : A)
      → (finish commits before r w).0 ≡ ok a
      → (r ≡ ok a) × Ended commits a before w (finish commits before r w).1
  unfolding finish
  finish-ok (ok b) w a h = ground arith
  finish-ok (err e) w a h = cc

module _ {A : Type 0} (commits : A → Bool) (m : Svc A) (w : World) where
  pub in_tx-err : (e : Error) → (in_tx commits m w).0 ≡ err e → (in_tx commits m w).1.db ≡ w.db
  in_tx-err e h = elim (Bool-cases (w.env.down w.calls)) [
    | inl d ↦ rw (in_tx_down commits m w d)
    | inr d ↦ rw (in_tx_up commits m w d) (
        finish-err commits w.db (m (begun commits m w)).0 (m (begun commits m w)).1 e
          (rw (in_tx_up commits m w d) at h))
  ]

  pub in_tx-ok :
      (a : A)
      → (in_tx commits m w).0 ≡ ok a
      → ((m (begun commits m w)).0 ≡ ok a)
        × Ended commits a w.db (m (begun commits m w)).1 (in_tx commits m w).1
  in_tx-ok a h = elim (Bool-cases (w.env.down w.calls)) [
    | inl d ↦ let k = rw (in_tx_down commits m w d) at h in cc
    | inr d ↦ rw (in_tx_up commits m w d) (
        finish-ok commits w.db (m (begun commits m w)).0 (m (begun commits m w)).1 a
          (rw (in_tx_up commits m w d) at h))
  ]

-- A transaction that is never committed leaves the database as it was.
finish-never :
    {A : Type 0} (before : Database) (r : Result A) (w : World)
    → (finish never before r w).1.db ≡ before
unfolding finish
finish-never before (ok a) w = refl
finish-never before (err e) w = refl

pub in_tx-never : {A : Type 0} (m : Svc A) (w : World) → (in_tx never m w).1.db ≡ w.db
in_tx-never m w = elim (Bool-cases (w.env.down w.calls)) [
  | inl d ↦ rw (in_tx_down never m w d)
  | inr d ↦
      rw (in_tx_up never m w d) (finish-never w.db (m (begun never m w)).0 (m (begun never m w)).1)
]
