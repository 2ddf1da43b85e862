-- ===== src/World/Outcomes/Rules.antt =====
-- A rule for each kind of step of a `do` block.
use at_app.Base.{
  ℕ, suc, Bool, false, Option, none, some, String, ◌≡◌, refl, List, [], ◌∷◌, ◌++◌, if◌then◌else◌,
}
use at_app.Store.{Uuid, Time, Database}
use at_app.World.{
  World, Cache, Entry, Message, Svc, continue, ◌>>=◌, gets, query, try_query, statement,
  with_tenant, or_reject, or_fail, reject_if, redis_get, redis_do, redis_must, redis_ttl, publish,
  view, live, in_tx,
}
use at_app.World.Isolation.{begun}
use at_app.World.Atomic.{Ended, in_tx-ok}
use at_app.World.Outcomes.Steps.{
  Ends, ticked, bind-Ends, query-ok, try_query-ok, redis_get-ok, or_reject-ok, or_fail-ok,
  reject_if-ok, with_tenant-ok, statement-ok, redis_ttl-ok, publish-ok, redis_do-ok, redis_must-ok,
}

module _ {B : Type 0} {P : B → World → Type 0} {A : Type 0} (k : A → Svc B) (w : World) where
  pub gets-Ends : (f : World → A) → Ends P (k (f w) w) → Ends P ((gets f >>= k) w)
  unfolding gets ◌>>=◌ continue
  gets-Ends f h = h

  pub query-Ends :
      (f : Database → A) → Ends P (k (f (view w)) (ticked w)) → Ends P ((query f >>= k) w)
  query-Ends f h = bind-Ends _ k w λ a e. let (x, y) = query-ok f w a e in rw (x, y) h

  pub or_reject-Ends :
      (o : Option A) (n : ℕ) (s : String)
      → ((a : A) → o ≡ some a → Ends P (k a w))
      → Ends P ((or_reject o n s >>= k) w)
  or_reject-Ends o n s h =
      bind-Ends _ k w λ a e. let (x, y) = or_reject-ok o n s w a e in rw y (h a x)

  pub or_fail-Ends :
      (o : Option A) → ((a : A) → o ≡ some a → Ends P (k a w)) → Ends P ((or_fail o >>= k) w)
  or_fail-Ends o h = bind-Ends _ k w λ a e. let (x, y) = or_fail-ok o w a e in rw y (h a x)

  pub statement-Ends :
      (f : World → Option (A × Database))
      → ((a : A) (d : Database)
          → f (ticked w) ≡ some (a, d)
          → Ends P (k a (record w { calls = suc w.calls; db = d })))
      → Ends P ((statement f >>= k) w)
  statement-Ends f h = bind-Ends _ k w λ a e. let (d, x, y) = statement-ok f w a e in rw y (h a d x)

module _ {B : Type 0} {P : B → World → Type 0} {A : Type 0} (k : Option A → Svc B) (w : World) where
  pub try_query-Ends :
      (f : Database → A)
      → Ends P (k (if w.env.down w.calls then none else some (f (view w))) (ticked w))
      → Ends P ((try_query f >>= k) w)
  try_query-Ends f h = bind-Ends _ k w λ a e. let (x, y) = try_query-ok f w a e in rw (x, y) h

  pub redis_get-Ends :
      (f : Cache → Option (Entry A))
      → Ends P (k (if w.env.down w.calls then none else live w.now (f w.cache)) (ticked w))
      → Ends P ((redis_get f >>= k) w)
  redis_get-Ends f h = bind-Ends _ k w λ a e. let (x, y) = redis_get-ok f w a e in rw (x, y) h

module _ {B : Type 0} {P : B → World → Type 0} {A : Type 0} (k : ℕ → Svc B) (w : World) where
  pub redis_ttl-Ends :
      (f : Cache → Option (Entry A))
      → ((n : ℕ) → Ends P (k n (ticked w)))
      → Ends P ((redis_ttl f >>= k) w)
  redis_ttl-Ends f h = bind-Ends _ k w λ a e. rw (redis_ttl-ok f w a e) (h a)

module _ {B : Type 0} {P : B → World → Type 0} (k : Unit {0} → Svc B) (w : World) where
  pub reject_if-Ends :
      (b : Bool) (n : ℕ) (s : String)
      → (b ≡ false → Ends P (k tt w))
      → Ends P ((reject_if b n s >>= k) w)
  reject_if-Ends b n s h =
      bind-Ends _ k w λ u e. let (x, y) = reject_if-ok b n s w u e in rw y (h x)

  pub with_tenant-Ends :
      (c : Uuid)
      → Ends P (k tt (record w { calls = suc w.calls; tenant = some c }))
      → Ends P ((with_tenant c >>= k) w)
  with_tenant-Ends c h = bind-Ends _ k w λ u e. rw (with_tenant-ok c w u e) h

  pub publish-Ends :
      (m : Message)
      → ((b : List Message)
          → b ≡ (if w.env.down w.calls then w.bus else w.bus ++ m ∷ [])
          → Ends P (k tt (record w { calls = suc w.calls; bus = b })))
      → Ends P ((publish m >>= k) w)
  publish-Ends m h = bind-Ends _ k w λ u e. rw (publish-ok m w u e) (h _ refl)

  pub redis_do-Ends :
      (f : Time → Cache → Cache)
      → Ends P (
          k tt (record w {
            calls = suc w.calls;
            cache = if w.env.down w.calls then w.cache else f w.now w.cache;
          }))
      → Ends P ((redis_do f >>= k) w)
  redis_do-Ends f h = bind-Ends _ k w λ u e. rw (redis_do-ok f w u e) h

  pub redis_must-Ends :
      (f : Time → Cache → Cache)
      → Ends P (k tt (record w { calls = suc w.calls; cache = f w.now w.cache }))
      → Ends P ((redis_must f >>= k) w)
  redis_must-Ends f h = bind-Ends _ k w λ u e. rw (redis_must-ok f w u e) h

-- A transaction: what its body ends with, and then the rest in the world that it leaves.
module _ {A B : Type 0} {P : B → World → Type 0} (commits : A → Bool) (m : Svc A) (k : A → Svc B)
    (w : World) where
  pub in_tx-Ends :
      Ends
        (λ a v. (w' : World) → Ended commits a w.db v w' → Ends P (k a w'))
        (m (begun commits m w))
      → Ends P ((in_tx commits m >>= k) w)
  in_tx-Ends h =
      bind-Ends _ k w
        λ a e. let (x, y) = in_tx-ok commits m w a e in h.at a x (in_tx commits m w).1 y
