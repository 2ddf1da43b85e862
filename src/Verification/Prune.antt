-- ===== src/Verification/Prune.antt =====
-- `PruneRawVerificationData` (server/internal/verification/service.go).
use at_app.Base.{
  ℕ, ◌-◌, Bool, true, false, ◌&&◌, ◌||◌, Option, none, some, List, [], ◌∷◌, ◌≡◌, refl, sym, ◌∙◌, ap,
  subst, arith, ltb, All, count_where, update_where, Bool-cases, inl, inr,
}
use at_app.Store.{Time, Database, VerificationAttempt}
use at_app.Store.Rls.{admits}
use at_app.World.{World, ok, Svc, statement}
use at_app.World.Outcomes.{statement-ok}

unfoldable pub is_set : {A : Type 0} → Option A → Bool
is_set none = false
is_set (some a) = true

-- submitted_at < $1 AND (raw_bssid IS NOT NULL OR raw_gps_lat IS NOT NULL OR raw_gps_lng IS NOT NULL)
unfoldable pub is_stale : Time → VerificationAttempt → Bool
unfolding is_set
is_stale cutoff a =
    ltb a.submitted_at cutoff
    && (is_set a.raw_bssid || is_set a.raw_gps_lat || is_set a.raw_gps_lng)

-- SET raw_bssid = NULL, raw_gps_lat = NULL, raw_gps_lng = NULL
abbrev pub blank : VerificationAttempt → VerificationAttempt
blank a = record a { raw_bssid = none; raw_gps_lat = none; raw_gps_lng = none }

-- The statement stands in no transaction, so no tenant is set; `RowsAffected` comes back.
abbrev pub prunable : Time → World → VerificationAttempt → Bool
prunable retention w a = admits w.env.rls none a.college_id && is_stale (w.now - retention) a

unfoldable pub prune_rows : Time → World → Option (ℕ × Database)
prune_rows retention w = some (
  count_where (prunable retention w) w.db.verification_attempts,
  record (w.db) {
    verification_attempts = update_where (prunable retention w) blank w.db.verification_attempts;
  },
)

unfoldable pub prune_raw_verification_data : Time → Svc ℕ
prune_raw_verification_data retention = statement (prune_rows retention)

module _ {A : Type 0} where
  update_where-none :
      (p : A → Bool) (f : A → A) (xs : List A)
      → ((x : A) → p x ≡ false)
      → (update_where p f xs ≡ xs) × (count_where p xs ≡ 0)
  unfolding update_where count_where
  update_where-none p f [] h = (refl, refl)
  update_where-none p f (x ∷ xs) h =
      let (u, c) = update_where-none p f xs h in (ground (arith, h x, u), ground (arith, h x, c))

  All-update_where :
      (p q : A → Bool) (f : A → A) (xs : List A)
      → ((x : A) → p x ≡ true → q (f x) ≡ false)
      → ((x : A) → p x ≡ false → q x ≡ false)
      → All (λ x. q x ≡ false) (update_where p f xs)
  unfolding update_where
  All-update_where p q f [] h k = tt
  All-update_where p q f (x ∷ xs) h k = (
    elim (Bool-cases (p x)) [ inl t ↦ rw t (h x t) | inr t ↦ rw t (k x t) ],
    All-update_where p q f xs h k,
  )

prune_rows-written :
    (retention : Time) (w : World) (n : ℕ)
    → (prune_raw_verification_data retention w).0 ≡ ok n
    → (n ≡ count_where (prunable retention w) w.db.verification_attempts)
      × ((prune_raw_verification_data retention w).1.db.verification_attempts
          ≡ update_where (prunable retention w) blank w.db.verification_attempts)
unfolding prune_raw_verification_data prune_rows
prune_rows-written retention w n h =
    let (d, e, v) = statement-ok (prune_rows retention) w n h in
    (ground (arith, e), ap (λ y. y.db.verification_attempts) v ∙ ground (arith, e))

-- Where row-level security binds the server's role, the pruning reports 0 rows and leaves every
-- attempt as it was, however old.
pub prune_blind :
    (retention : Time) (w : World) (n : ℕ)
    → w.env.rls ≡ true
    → (prune_raw_verification_data retention w).0 ≡ ok n
    → (n ≡ 0)
      × ((prune_raw_verification_data retention w).1.db.verification_attempts
          ≡ w.db.verification_attempts)
unfolding admits
prune_blind retention w n rls h =
    let (c, d) = prune_rows-written retention w n h in
    let (u, z) =
      update_where-none (prunable retention w) blank w.db.verification_attempts
        (λ a. ground (arith, rls)) in
    (c ∙ z, d ∙ u)

-- Where row-level security does not bind the server's role, once the pruning has succeeded no
-- attempt that was submitted before the retention window has a raw value left.
pub prune_complete :
    (retention : Time) (w : World) (n : ℕ)
    → w.env.rls ≡ false
    → (prune_raw_verification_data retention w).0 ≡ ok n
    → All
        (λ a. is_stale (w.now - retention) a ≡ false)
        (prune_raw_verification_data retention w).1.db.verification_attempts
unfolding admits is_stale is_set
prune_complete retention w n rls h =
    let (c, d) = prune_rows-written retention w n h in
    subst (All (λ a. is_stale (w.now - retention) a ≡ false)) (sym d) (
      All-update_where (prunable retention w) (is_stale (w.now - retention)) blank
        w.db.verification_attempts (λ a t. ground arith) (λ a f. ground (arith, rls, f)))
