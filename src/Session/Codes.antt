-- ===== src/Session/Codes.antt =====
-- Check-in codes (server/internal/session/service.go, `generateCode` and the loop of
-- `GetOrRotateCode`).
use at_app.Base.{
  ℕ, zero, suc, ◌+◌, ◌/◌, ◌%◌, Option, none, some, [], ◌∷◌, same_bytes, if◌then◌else◌,
}
use at_app.Store.{Code}

-- The ASCII digit at a power of ten.
abbrev pub digit : ℕ → ℕ → ℕ
digit n power = 48 + n / power % 10

-- fmt.Sprintf("%06d", n) of a number below 1000000
unfoldable pub format_code : ℕ → Code
format_code n =
    digit n 100000 ∷ digit n 10000 ∷ digit n 1000 ∷ digit n 100 ∷ digit n 10 ∷ digit n 1 ∷ []

-- for newCode == oldCode { newCode = generateCode() }, from the i-th number that `crypto/rand`
-- yields; with the code comes the index behind the numbers that were used.
unfoldable pub next_code : ℕ → (ℕ → ℕ) → ℕ → Code → Option (Code × ℕ)
unfolding format_code
next_code zero draw i old = none
next_code (suc fuel) draw i old =
    let rest = next_code fuel draw (suc i) old in
    if same_bytes (format_code (draw i)) old then rest else some (format_code (draw i), suc i)
