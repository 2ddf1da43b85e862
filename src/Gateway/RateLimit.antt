-- ===== src/Gateway/RateLimit.antt =====
-- `RateLimit` (server/internal/gateway/ratelimit.go).
use at_app.Base.{
  ℕ, suc, ◌+◌, ◌<◌, Bool, true, false, not, ◌&&◌, Option, none, some, ◌==◌, ltb, ◌≡◌, refl, subst,
  List, [], ◌∷◌, All, length, Bool-cases, inl, inr, ◌≤◌, ◌∙◌, arith, if◌then◌else◌, ap, ==-refl,
}
use at_app.Store.{Text, Time}
use at_app.World.{World, Entry, Cache, Svc, ok, live, reach, continue, ◌>>=◌, ◌>>◌, pure, redis_do}
use at_app.Gateway.Access.{Gate, passes, answers}

-- X-Forwarded-For if it is there, else the host of the address, or the whole of it if it does not
-- split; `host` is `net.SplitHostPort`.
unfoldable pub client_ip : (Text → Option Text) → Text → Text → Text
client_ip host forwarded remote =
    if not (forwarded == 0) then forwarded else elim (host remote) [ none ↦ remote | some h ↦ h ]

unfoldable pub incremented : Option ℕ → ℕ
incremented none = 1
incremented (some n) = suc n

-- The key keeps its end; a new one has none.
unfoldable pub end_of : Option ℕ → Option (Entry ℕ) → Option Time
end_of none e = none
end_of (some n) none = none
end_of (some n) (some e) = e.expires

-- rdb.Incr of `ratelimit:%s:%s`
unfoldable pub incr_limit : Text → Text → Time → Cache → Cache
unfolding live incremented end_of
incr_limit name ip now c = record c {
  limits = λ n i.
      if n == name && i == ip
      then some (record {
        value = incremented (live now (c.limits name ip));
        expires = end_of (live now (c.limits name ip)) (c.limits name ip);
      })
      else c.limits n i;
}

-- rdb.Expire
unfoldable pub expire_limit : Text → Text → Time → Time → Cache → Cache
unfolding live
expire_limit name ip window now c = record c {
  limits = λ n i.
      if n == name && i == ip
      then elim (live now (c.limits name ip)) [
        | none ↦ none
        | some v ↦ some (record { value = v; expires = some (now + window) })
      ]
      else c.limits n i;
}

unfoldable pub limit_first : Text → Text → Time → ℕ → Svc (Unit {0})
unfolding redis_do expire_limit pure
limit_first name ip window count =
    if count == 1 then redis_do (expire_limit name ip window) else pure tt

abbrev pub counted : Text → Text → World → Svc ℕ
counted name ip w v = (
  ok (incremented (live w.now (w.cache.limits name ip))),
  record v { cache = incr_limit name ip w.now w.cache },
)

unfoldable pub limit : Text → ℕ → Time → Text → Bool → Svc (Gate (Unit {0}))
unfolding incremented incr_limit limit_first ◌>>=◌ pure
limit name max window ip false = pure (passes tt)
limit name max window ip true = do
  count ← λ w. counted name ip w w
  limit_first name ip window count
  pure
      (if ltb max count then answers 429 "too many requests, please try again later" else passes tt)

-- A request of that client; Redis out of reach lets it pass.
unfoldable pub rate_limit : Text → ℕ → Time → Text → Svc (Gate (Unit {0}))
unfolding reach limit ◌>>=◌
rate_limit name max window ip = do up ← reach; limit name max window ip up

-- Requests of one client, one at each of these times.
unfoldable pub requests : Text → ℕ → Time → Text → List Time → World → World
unfolding rate_limit
requests name max window ip [] w = w
requests name max window ip (t ∷ ts) w =
    requests name max window ip ts (rate_limit name max window ip (record w { now = t })).1

module _ (name ip : Text) (max : ℕ) (window : Time) where
  -- The key counts `n` requests of the window that began at `start`.
  abbrev pub Counts : Time → ℕ → World → Type 0
  Counts start n w =
      w.cache.limits name ip ≡ some (record { value = n; expires = some (start + window) })

  -- The answer to the request behind `n` others.
  abbrev pub answer : ℕ → Gate (Unit {0})
  answer n =
      if ltb max (suc n) then answers 429 "too many requests, please try again later" else passes tt

  -- Redis answers every call.
  abbrev pub IsUp : World → Type 0
  IsUp w = (n : ℕ) → w.env.down n ≡ false

  -- A request that finds no count starts a window.
  rate_limit-first :
      (w : World)
      → IsUp w
      → 0 < window
      → live w.now (w.cache.limits name ip) ≡ none
      → ((rate_limit name max window ip w).0 ≡ ok (answer 0))
        × Counts w.now 1 (rate_limit name max window ip w).1
        × ((rate_limit name max window ip w).1.env ≡ w.env)
  unfolding rate_limit limit limit_first reach redis_do ◌>>=◌ continue pure incr_limit expire_limit
      incremented end_of live
  rate_limit-first w up pos s =
      ground (arith, up w.calls, up (suc w.calls), s, ==-refl name, ==-refl ip, pos)

  -- A request within the window is counted, and the window still ends when it did.
  rate_limit-next :
      (start : Time) (n : ℕ) (w : World)
      → IsUp w
      → w.now < start + window
      → Counts start (suc n) w
      → ((rate_limit name max window ip w).0 ≡ ok (answer (suc n)))
        × Counts start (suc (suc n)) (rate_limit name max window ip w).1
        × ((rate_limit name max window ip w).1.env ≡ w.env)
  unfolding rate_limit limit limit_first reach redis_do ◌>>=◌ continue pure incr_limit expire_limit
      incremented end_of live
  rate_limit-next start n w up t s =
      ground (arith, up w.calls, up (suc w.calls), s, ==-refl name, ==-refl ip, t)

  requests-Counts :
      (start : Time) (ts : List Time) (n : ℕ) (w : World)
      → IsUp w
      → All (λ t. t < start + window) ts
      → Counts start (suc n) w
      → Counts start (suc (length ts + n)) (requests name max window ip ts w)
        × ((requests name max window ip ts w).env ≡ w.env)
  unfolding requests
  requests-Counts start [] n w up a s =
      let e : n ≡ 0 + n = omega arith in (subst (λ m. Counts start (suc m) w) e s, refl)
  requests-Counts start (t ∷ ts) n w up (h, a) s =
      let v = record w { now = t } in
      let (r, c, env) = rate_limit-next start n v up h s in
      let e : length ts + suc n ≡ suc (length ts) + n = omega arith in
      let (d, same) =
        requests-Counts start ts (suc n) (rate_limit name max window ip v).1
          (λ i. ap (λ y. y.down i) env ∙ up i) a c in
      (subst (λ m. Counts start (suc m) (requests name max window ip (t ∷ ts) w)) e d, same ∙ env)

  expired :
      (start t : Time) (n : ℕ) (w : World)
      → start + window ≤ t
      → Counts start n w
      → live t (w.cache.limits name ip) ≡ none
  unfolding live
  expired start t n w late s = ground (arith, late, s)

  -- While Redis answers every call: when a request finds no count of its client, and others follow
  -- at any times within the window that it starts, a further request is answered 429 within the
  -- window exactly when those before it have reached the limit; and behind the end of the window,
  -- which no request moves, it is answered as a first one.
  pub requests-limited :
      (ts : List Time) (t : Time) (w : World)
      → IsUp w
      → 0 < window
      → live w.now (w.cache.limits name ip) ≡ none
      → All (λ s. s < w.now + window) ts
      → (rate_limit name max window ip
          (record (requests name max window ip ts (rate_limit name max window ip w).1) {
            now = t;
          })).0
        ≡ ok (answer (if ltb t (w.now + window) then suc (length ts) else 0))
  requests-limited ts t w up pos s a =
      let (r, c, env) = rate_limit-first w up pos s in
      let first = (rate_limit name max window ip w).1 in
      let (d, same) = requests-Counts w.now ts 0 first (λ i. ap (λ y. y.down i) env ∙ up i) a c in
      let v = requests name max window ip ts first in
      let still : IsUp v = λ i. ap (λ y. y.down i) (same ∙ env) ∙ up i in
      elim (Bool-cases (ltb t (w.now + window))) [
        | inl e ↦ rw e (
            (rate_limit-next w.now (length ts + 0) (record v { now = t }) still (ground (arith, e))
              d).0
            ∙ ap (λ m. ok (answer (suc m))) (omega arith))
        | inr e ↦ rw e (
            (rate_limit-first (record v { now = t }) still pos
              (expired w.now t _ v (ground (arith, e)) d)).0)
      ]
