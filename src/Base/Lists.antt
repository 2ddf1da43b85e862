-- ===== src/Base/Lists.antt =====
-- Lists as tables: the clauses WHERE, EXISTS, COUNT, JOIN, UPDATE and LIMIT 1 of a query.
use Prim.Native.Nat.{ℕ, suc, ◌+◌}
use mathlib.Core.Path.{◌≡◌, refl}
use mathlib.Core.Bool.{Bool, true, false, ◌||◌, ◌&&◌}
use mathlib.Core.List.{List, [], ◌∷◌, ◌++◌}
use mathlib.Core.Option.{Option, none, some}
use native.Mathlib.Omega.{arith}
use at_app.Base.Tests.{if◌then◌else◌, ◌==◌}

module _ {ℓ} {A : Type ℓ} where
  abbrev pub length : List A → ℕ
  length [] = 0
  length (x ∷ xs) = suc (length xs)

  -- SELECT … WHERE p
  unfoldable pub select : (A → Bool) → List A → List A
  select p [] = []
  select p (x ∷ xs) = let rest = select p xs in if p x then x ∷ rest else rest

  -- EXISTS (SELECT 1 … WHERE p)
  unfoldable pub exists_where : (A → Bool) → List A → Bool
  exists_where p [] = false
  exists_where p (x ∷ xs) = p x || exists_where p xs

  -- SELECT COUNT(*) … WHERE p
  unfoldable pub count_where : (A → Bool) → List A → ℕ
  count_where p [] = 0
  count_where p (x ∷ xs) = let rest = count_where p xs in if p x then suc rest else rest

  -- UPDATE … SET f WHERE p
  unfoldable pub update_where : (A → Bool) → (A → A) → List A → List A
  update_where p f [] = []
  update_where p f (x ∷ xs) = (if p x then f x else x) ∷ update_where p f xs

  -- the row that `QueryRow` scans, in the table's order; `none` is `sql.ErrNoRows`
  unfoldable pub first : List A → Option A
  first [] = none
  first (x ∷ xs) = some x

  -- every element satisfies `P`
  abbrev pub All {κ} : (A → Type κ) → List A → Type κ
  All P [] = Unit
  All P (x ∷ xs) = P x × All P xs

-- … FROM as JOIN bs ON p
module _ {ℓ κ} {A : Type ℓ} {B : Type κ} where
  unfoldable pub join_row : (A → B → Bool) → A → List B → List (A × B)
  join_row p a [] = []
  join_row p a (b ∷ bs) = let rest = join_row p a bs in if p a b then (a, b) ∷ rest else rest

  unfoldable pub join : (A → B → Bool) → List A → List B → List (A × B)
  unfolding join_row
  join p [] bs = []
  join p (a ∷ as') bs = join_row p a bs ++ join p as' bs

module _ {ℓ} {A : Type ℓ} where
  pub select-append :
      (p : A → Bool) (xs ys : List A) → select p (xs ++ ys) ≡ select p xs ++ select p ys
  unfolding select
  select-append p [] ys = refl
  select-append p (x ∷ xs) ys = ground (arith, select-append p xs ys)

  -- A new row that fails the test is not seen.
  pub select-insert :
      (p : A → Bool) (xs : List A) (x : A) → p x ≡ false → select p (xs ++ x ∷ []) ≡ select p xs
  unfolding select
  select-insert p [] x h = ground arith
  select-insert p (y ∷ xs) x h = ground (arith, select-insert p xs x h)

  pub count_where-append :
      (p : A → Bool) (xs ys : List A)
      → count_where p (xs ++ ys) ≡ count_where p xs + count_where p ys
  unfolding count_where
  count_where-append p [] ys = omega arith
  count_where-append p (x ∷ xs) ys = ground (arith, count_where-append p xs ys)

  pub exists_where-append :
      (p : A → Bool) (xs ys : List A)
      → exists_where p (xs ++ ys) ≡ (exists_where p xs || exists_where p ys)
  unfolding exists_where
  exists_where-append p [] ys = refl
  exists_where-append p (x ∷ xs) ys = ground (arith, exists_where-append p xs ys)

  -- What the visible rows hold, the table holds.
  pub exists_where-select :
      (p q : A → Bool) (xs : List A)
      → exists_where p (select q xs) ≡ true
      → exists_where p xs ≡ true
  unfolding exists_where select
  exists_where-select p q [] h = h
  exists_where-select p q (x ∷ xs) h = ground (arith, exists_where-select p q xs)

  pub All-map_of {κ μ} :
      (P : A → Type κ) (Q : A → Type μ)
      → ((x : A) → P x → Q x)
      → (xs : List A) → All P xs
      → All Q xs
  All-map_of P Q f [] h = tt
  All-map_of P Q f (x ∷ xs) h = (f x h.0, All-map_of P Q f xs h.1)

  pub count_where-eq-zero :
      (p : A → Bool) (xs : List A) → exists_where p xs ≡ false → count_where p xs ≡ 0
  unfolding count_where exists_where
  count_where-eq-zero p [] h = refl
  count_where-eq-zero p (x ∷ xs) h = ground (arith, count_where-eq-zero p xs)

  -- An update that keeps `q` and touches only rows outside `q` is not seen through `q`.
  pub select-update_where :
      (q p : A → Bool) (f : A → A) (xs : List A)
      → ((x : A) → p x ≡ true → (q x ≡ false) × (q (f x) ≡ false))
      → select q (update_where p f xs) ≡ select q xs
  unfolding select update_where
  select-update_where q p f [] h = refl
  select-update_where q p f (x ∷ xs) h = ground (arith, h x, select-update_where q p f xs h)

  -- An update that no test of `q` can see leaves the count of `q` alone.
  pub count_where-update_where :
      (q p : A → Bool) (f : A → A) (xs : List A)
      → ((x : A) → p x ≡ true → q (f x) ≡ q x)
      → count_where q (update_where p f xs) ≡ count_where q xs
  unfolding count_where update_where
  count_where-update_where q p f [] h = refl
  count_where-update_where q p f (x ∷ xs) h =
      ground (arith, h x, count_where-update_where q p f xs h)

  pub exists_where-update_where :
      (q p : A → Bool) (f : A → A) (xs : List A)
      → ((x : A) → p x ≡ true → q (f x) ≡ q x)
      → exists_where q (update_where p f xs) ≡ exists_where q xs
  unfolding exists_where update_where
  exists_where-update_where q p f [] h = refl
  exists_where-update_where q p f (x ∷ xs) h =
      ground (arith, h x, exists_where-update_where q p f xs h)

-- Two byte strings are the same.
unfoldable pub same_bytes : List ℕ → List ℕ → Bool
same_bytes [] [] = true
same_bytes [] (b ∷ bs) = false
same_bytes (a ∷ as') [] = false
same_bytes (a ∷ as') (b ∷ bs) = a == b && same_bytes as' bs

pub same_bytes_refl : (a : List ℕ) → same_bytes a a ≡ true
unfolding same_bytes
same_bytes_refl [] = refl
same_bytes_refl (a ∷ as') = ground (arith, same_bytes_refl as')

pub eq_of_same_bytes : (a b : List ℕ) → same_bytes a b ≡ true → a ≡ b
unfolding same_bytes
eq_of_same_bytes [] [] h = refl
eq_of_same_bytes [] (b ∷ bs) h = cc
eq_of_same_bytes (a ∷ as') [] h = cc
eq_of_same_bytes (a ∷ as') (b ∷ bs) h = ground (arith, eq_of_same_bytes as' bs)
