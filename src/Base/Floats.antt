-- ===== src/Base/Floats.antt =====
-- Go's `float64` and package `math`, which are not part of the repository: a value is its 64-bit
-- pattern, a number, and every operation is a parameter.
use Prim.Native.Nat.{ℕ}
use mathlib.Core.Bool.{Bool}
use at_app.Base.Int.{ℤ}

abbrev pub Float : Type 0
Float = ℕ

pub record Floats : Type 0 where
  pub add : Float → Float → Float
  pub sub : Float → Float → Float
  pub mul : Float → Float → Float
  pub div : Float → Float → Float
  pub sin : Float → Float
  pub cos : Float → Float
  pub sqrt : Float → Float
  pub atan2 : Float → Float → Float
  pub pi : Float
  pub le : Float → Float → Bool
  pub lt : Float → Float → Bool
  -- `float64(n)`, also a literal such as `180.0`
  pub of_int : ℤ → Float
  -- a NUMERIC column with that many decimals, scanned into a `float64`, and written from one
  pub of_numeric : ℕ → ℤ → Float
  pub to_numeric : ℕ → Float → ℤ
