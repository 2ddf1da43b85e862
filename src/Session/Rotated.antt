-- ===== src/Session/Rotated.antt =====
-- What `GetOrRotateCode` (server/internal/session/service.go) shows and stores.
use at_app.Base.{
  ℕ, zero, suc, ◌+◌, false, Option, none, some, ◌≡◌, refl, sym, ◌∙◌, ap, subst, if◌then◌else◌,
  arith, ◌⊎◌, inl, inr, Bool-cases, same_bytes, update_where, ◌&&◌, ◌==◌, snd_of_some, Bool,
}
use at_app.Store.{Uuid, Code, Database}
use at_app.Store.Rls.{admits}
use at_app.World.{World, Svc, Cache, ok, live, ◌>>=◌}
use at_app.World.Outcomes.{
  Ends, bind-Ends, pure-Ends, query-Ends, or_reject-Ends, statement-Ends, with_tenant-Ends,
  redis_get-Ends, redis_ttl-Ends, redis_do-Ends, in_tx-Ends,
}
use at_app.World.Isolation.{begun}
use at_app.Session.Started.{seen_by}
use at_app.Session.Codes.{format_code, next_code}
use at_app.Session.Start.{set_code, set_prev}
use at_app.Session.Rotate.{
  update_code, find_code, emit, generate_other, Rotation, cached, rotated, commits, show_or_rotate,
  rotate, show, get_or_rotate_code,
}

-- The loop leaves with a generated code other than the old one.
pub next_code-differs :
    (fuel : ℕ) (draw : ℕ → ℕ) (i : ℕ) (old : Code) (x : Code × ℕ)
    → next_code fuel draw i old ≡ some x
    → (same_bytes x.0 old ≡ false) × ((j : ℕ) × (x.0 ≡ format_code (draw j)))
unfolding next_code
next_code-differs zero draw i old x h = cc
next_code-differs (suc fuel) draw i old x h =
    elim (Bool-cases (same_bytes (format_code (draw i)) old)) [
      | inl e ↦ next_code-differs fuel draw (suc i) old x (ground (arith, h))
      | inr e ↦
          let k : (format_code (draw i), suc i) ≡ x = ground (arith, h, e) in
          (ap (λ y. same_bytes y.0 old) (sym k) ∙ e, (i, ap (λ y. y.0) (sym k)))
    ]

-- As many rounds as it takes to draw another code are enough.
pub next_code-enough :
    (k : ℕ) (draw : ℕ → ℕ) (i : ℕ) (old : Code)
    → same_bytes (format_code (draw (i + k))) old ≡ false
    → (x : Code × ℕ) × (next_code (suc k) draw i old ≡ some x)
unfolding next_code
next_code-enough zero draw i old h =
    let q : i + 0 ≡ i = omega arith in
    let g : same_bytes (format_code (draw i)) old ≡ false =
      subst (λ n. same_bytes (format_code (draw n)) old ≡ false) q h in
    ((format_code (draw i), suc i), rw g)
next_code-enough (suc k) draw i old h = elim (Bool-cases (same_bytes (format_code (draw i)) old)) [
  | inl e ↦
      let q : i + suc k ≡ suc i + k = omega arith in
      let (x, q) =
        next_code-enough k draw (suc i) old
          (subst (λ n. same_bytes (format_code (draw n)) old ≡ false) q h) in
      (x, rw e q)
  | inr e ↦ ((format_code (draw i), suc i), rw e)
]

emit-ok :
    (w : World) (o : Option (Code × ℕ)) (code : Code)
    → (emit w o).0 ≡ ok code
    → (n : ℕ) × (o ≡ some (code, n)) × ((emit w o).1 ≡ record w { calls = n })
unfolding emit
emit-ok w none code h = cc
emit-ok w (some (c, n)) code h = (n, cc, refl)

module _ {B : Type 0} {P : B → World → Type 0} (k : Code → Svc B) (w : World) where
  generate_other-Ends :
      (old : Code)
      → ((code : Code) (n : ℕ)
          → same_bytes code old ≡ false
          → (j : ℕ) × (code ≡ format_code (w.env.draw j))
          → Ends P (k code (record w { calls = n })))
      → Ends P ((generate_other old >>= k) w)
  unfolding generate_other
  generate_other-Ends old f = bind-Ends _ k w λ a e.
      let (n, q, r) = emit-ok w _ a e in
      let (s, t) = next_code-differs _ _ _ old (a, n) q in rw r (f a n s t)

-- The new code for ten seconds from now in its key, unless call `n` fails.
abbrev pub with_code : Uuid → Code → ℕ → World → Cache
with_code session new n w = if w.env.down n then w.cache else set_code session new 10 w.now w.cache

-- Each of the two keys holds its code from now for ten seconds, unless its own call fails: these
-- are two calls in a row.
pub record Stored (session : Uuid) (old new : Code) (w v : World) : Type 0 where
  pub calls :
      (n : ℕ) × (v.cache ≡ (
        if w.env.down (suc n)
        then with_code session new n w
        else set_prev session old 10 w.now (with_code session new n w)))

Stored-moved :
    (session : Uuid) (old new : Code) (w u v : World)
    → Stored session old new u v
    → u.cache ≡ w.cache
    → u.now ≡ w.now
    → u.env ≡ w.env
    → Stored session old new w v
Stored-moved session old new w u v k ce ne ee =
    let (n, e) = k.calls in record { calls = (n, rw (sym ce, sym ne, sym ee) e) }

module _ (c teacher session : Uuid) where
  -- The session's row, for the tenant, has the new code from now on.
  abbrev pub recoded : Code → World → Database
  recoded new w = record (w.db) {
    class_sessions =
        update_where (λ cs. admits w.env.rls (some c) cs.college_id && cs.id == session)
          (λ cs. record cs { current_code = new; code_updated_at = w.now }) w.db.class_sessions;
  }

  -- The code of Redis stays, or the row gets a code other than its last.
  pub data After (w v : World) (old : Code) : Rotation → Type 0 where
    stays :
        (code : Code) (ttl : ℕ)
        → live w.now (w.cache.code session) ≡ some code
        → After w v old (cached code ttl)
    turns :
        (new : Code)
        → same_bytes new old ≡ false
        → (j : ℕ) × (new ≡ format_code (w.env.draw j))
        → v.db ≡ recoded new w
        → After w v old (rotated new old)

  -- The transaction found the session open and the teacher's; what it does then.
  pub record Rotates (w : World) (r : Rotation) (v : World) : Type 0 where
    pub found :
        (old : Code) × (find_code session teacher (seen_by c w) ≡ some old) × After w v old r
    pub cache : v.cache ≡ w.cache
    pub now : v.now ≡ w.now
    pub env : v.env ≡ w.env

  -- The world in which the branches on the Redis key begin: three calls have been made.
  abbrev branching : World → World
  branching w = record w { calls = suc (suc (suc w.calls)); tenant = some c }

  update_code_inv :
      (new : Code) (w : World) (n : ℕ) (u : Unit {0}) (d : Database)
      → update_code session new (record w { calls = n; tenant = some c }) ≡ some (u, d)
      → d ≡ recoded new w
  unfolding update_code
  update_code_inv new w n u d h = sym (snd_of_some h)

  show_or_rotate-Ends :
      (w : World) (old : Code) (down : Bool) (val : Option Code)
      → find_code session teacher (seen_by c w) ≡ some old
      → val ≡ (if down then none else live w.now (w.cache.code session))
      → Ends (Rotates w) (show_or_rotate session old val (branching w))
  unfolding show_or_rotate
  show_or_rotate-Ends w old down (some code) found got = redis_ttl-Ends _ _ _ λ ttl.
      pure-Ends _ _ (record {
        found = (old, found, stays code ttl (ground (arith, got)));
        cache = refl;
        now = refl;
        env = refl;
      })
  show_or_rotate-Ends w old down none found got = generate_other-Ends _ _ old λ new n differs drawn.
      statement-Ends _ _ _ λ t d e. pure-Ends _ _ (record {
        found = (old, found, turns new differs drawn (update_code_inv new w _ t d e));
        cache = refl;
        now = refl;
        env = refl;
      })

  rotate-Ends : (w : World) → Ends (Rotates w) (rotate c teacher session w)
  unfolding rotate
  rotate-Ends w = with_tenant-Ends _ _ c (
      query-Ends _ _ _ (
        or_reject-Ends _ _ _ _ _
          λ old found. redis_get-Ends _ _ _ (show_or_rotate-Ends w old _ _ found refl)))

  -- The teacher has the session, and it was open. Either the returned code is the one that Redis
  -- holds, and nothing changed; or it is newly drawn and other than the row's last, the row has it,
  -- and Redis holds both.
  pub record CodeShown (w : World) (x : Code × ℕ) (v : World) : Type 0 where
    pub found :
        (old : Code) × (find_code session teacher (seen_by c w) ≡ some old)
        × ((live w.now (w.cache.code session) ≡ some x.0) × (v.db ≡ w.db) × (v.cache ≡ w.cache)
            ⊎ (same_bytes x.0 old ≡ false)
              × ((j : ℕ) × (x.0 ≡ format_code (w.env.draw j)))
              × (v.db ≡ recoded x.0 w)
              × Stored session old x.0 w v)

  show-Ends :
      (w w' v : World) (old : Code) (r : Rotation)
      → find_code session teacher (seen_by c w) ≡ some old
      → After w v old r
      → w'.db ≡ (if commits r then v.db else w.db)
      → w'.cache ≡ w.cache
      → w'.now ≡ w.now
      → w'.env ≡ w.env
      → Ends (CodeShown w) (show session r w')
  unfolding show
  show-Ends w w' v old (cached shown ttl) found (stays code left l) d ce ne ee =
      pure-Ends _ _ (record { found = (old, found, inl (l, d, ce)) })
  show-Ends w w' v old (rotated new before) found (turns other s j row) d ce ne ee =
      redis_do-Ends _ _ _ (
        redis_do-Ends _ _ _ (
          pure-Ends _ _ (record {
            found = (
              old,
              found,
              inr (
                s,
                j,
                d ∙ row,
                Stored-moved session old new w w' _ (record { calls = (w'.calls, refl) }) ce ne ee,
              ),
            );
          })))

  -- The transaction begins in the state of the call, one call later.
  After-begun :
      (w v : World) (old : Code) (r : Rotation)
      → After (record w { calls = suc w.calls; tenant = none }) v old r
      → After w v old r
  After-begun w v old (cached code ttl) (stays x y l) = stays code ttl l
  After-begun w v old (rotated new before) (turns x s j row) = turns new s j row

  pub get_or_rotate_code-Ends :
      (w : World) → Ends (CodeShown w) (get_or_rotate_code c teacher session w)
  unfolding get_or_rotate_code
  get_or_rotate_code-Ends w = in_tx-Ends commits (rotate c teacher session) _ w (record {
    at = λ r rot w' ended.
        let begins = begun commits (rotate c teacher session) w in
        let k = (rotate-Ends begins).at r rot in
        let (old, found, a) = k.found in
        show-Ends w w' (rotate c teacher session begins).1 old r found
          (After-begun w (rotate c teacher session begins).1 old r a) ended.db
          (ended.cache ∙ k.cache) (ended.now ∙ k.now) (ended.env ∙ k.env);
  })
