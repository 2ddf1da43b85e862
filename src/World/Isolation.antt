-- ===== src/World/Isolation.antt =====
-- Tenants are kept apart: under row-level security a method that runs for one college leaves the
-- rows of every other college alone.
use at_app.Base.{
  Bool, some, ◌≡◌, refl, ◌∙◌, arith, ◌⊎◌, inl, inr, Bool-cases, suc, true, false, none,
}
use at_app.Store.{Uuid, Database}
use at_app.Store.Rls.{outside}
use at_app.World.{
  World, Result, err, Svc, ◌>>=◌, with_tenant, in_tx, call, finish, internal, continue,
}
use at_app.World.Promises.{IsPromise, Follows}

-- Inside a transaction that serves the college.
pub record Isolated (c : Uuid) (w w' : World) : Type 0 where
  pub same_env : w'.env ≡ w.env
  pub kept :
      w.env.rls ≡ true
      → w.tenant ≡ some c
      → (w'.tenant ≡ some c) × (outside c w'.db ≡ outside c w.db)

-- A whole method that serves the college.
pub record Confined (c : Uuid) (w w' : World) : Type 0 where
  pub same_env : w'.env ≡ w.env
  pub kept : w.env.rls ≡ true → outside c w'.db ≡ outside c w.db

pub Isolated-IsPromise : (c : Uuid) → IsPromise (Isolated c)
Isolated-IsPromise c = record {
  quiet = λ w w' q. record {
    same_env = q.same_env;
    kept = λ r t. (q.same_tenant ∙ t, rw q.same_db refl);
  };
  trans = λ u v w h k. record {
    same_env = k.same_env ∙ h.same_env;
    kept = λ r t.
        let (tv, ov) = h.kept r t in let (tw, ow) = k.kept (rw h.same_env r) tv in (tw, ow ∙ ov);
  };
}

pub Confined-IsPromise : (c : Uuid) → IsPromise (Confined c)
Confined-IsPromise c = record {
  quiet = λ w w' q. record { same_env = q.same_env; kept = λ r. rw q.same_db refl };
  trans = λ u v w h k. record {
    same_env = k.same_env ∙ h.same_env;
    kept = λ r. k.kept (rw h.same_env r) ∙ h.kept r;
  };
}

module _ {A : Type 0} (commits : A → Bool) (before : Database) where
  finish-env : (r : Result A) (w : World) → (finish commits before r w).1.env ≡ w.env
  unfolding finish
  finish-env r w = ground arith

  -- A transaction ends with what its body wrote or with what was there before.
  pub finish-db :
      (r : Result A) (w : World)
      → ((finish commits before r w).1.db ≡ w.db) ⊎ ((finish commits before r w).1.db ≡ before)
  unfolding finish
  finish-db r w = ground arith

module _ {A : Type 0} (c : Uuid) (rest : Unit {0} → Svc A) (w : World) where
  pub with_tenant_down :
      w.env.down w.calls ≡ true
      → (with_tenant c >>= rest) w ≡ (err internal, record w { calls = suc w.calls })
  unfolding with_tenant ◌>>=◌
  with_tenant_down h = ground arith

  pub with_tenant_up :
      w.env.down w.calls ≡ false
      → (with_tenant c >>= rest) w ≡ rest tt (record w { calls = suc w.calls; tenant = some c })
  unfolding with_tenant ◌>>=◌
  with_tenant_up h = ground arith

  with_tenant-Confined :
      ((u : Unit {0}) → Follows (Isolated c) (rest u)) → Confined c w ((with_tenant c >>= rest) w).1
  with_tenant-Confined h = elim (Bool-cases (w.env.down w.calls)) [
    | inl e ↦ rw (with_tenant_down e) (record { same_env = refl; kept = λ r. refl })
    | inr e ↦
        let k = (h tt).at (record w { calls = suc w.calls; tenant = some c }) in
        rw (with_tenant_up e) (record { same_env = k.same_env; kept = λ r. (k.kept r refl).1 })
  ]

module _ {A : Type 0} (commits : A → Bool) (m : Svc A) (w : World) where
  -- The world in which a transaction's body starts.
  abbrev pub begun : World
  begun = record w { calls = suc w.calls; tenant = none }

  pub in_tx_down :
      w.env.down w.calls ≡ true
      → in_tx commits m w ≡ (err internal, record w { calls = suc w.calls })
  unfolding in_tx
  in_tx_down h = ground arith

  pub in_tx_up :
      w.env.down w.calls ≡ false → in_tx commits m w ≡ finish commits w.db (m begun).0 (m begun).1
  unfolding in_tx ◌>>=◌ continue call
  in_tx_up h = ground arith

-- The rule for a transaction that first sets its tenant.
pub Confined-in_tx :
    {A : Type 0} (c : Uuid) (commits : A → Bool) (rest : Unit {0} → Svc A)
    → ((u : Unit {0}) → Follows (Isolated c) (rest u))
    → Follows (Confined c) (in_tx commits (with_tenant c >>= rest))
Confined-in_tx {A} c commits rest h = record { at = at_world }
  where
    at_world : (w : World) → Confined c w (in_tx commits (with_tenant c >>= rest) w).1
    at_world w = elim (Bool-cases (w.env.down w.calls)) [
      | inl e ↦ rw (in_tx_down commits _ w e) (record { same_env = refl; kept = λ r. refl })
      | inr e ↦
          let m : Svc A = with_tenant c >>= rest in
          let k = with_tenant-Confined c rest (begun commits m w) h in
          let (r', v) = m (begun commits m w) in
          rw (in_tx_up commits m w e) (record {
            same_env = finish-env commits w.db r' v ∙ k.same_env;
            kept = λ r. elim (finish-db commits w.db r' v) [
              | inl q ↦ rw q (k.kept r)
              | inr q ↦ rw q refl
            ];
          })
    ]
