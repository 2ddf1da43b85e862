-- ===== src/Tests/Gates.antt =====
-- The theorems on the middleware and on the codes, at single requests.
use at_app.Base.{ℕ, some, List, [], ◌∷◌, ◌≡◌, refl, arith}
use at_app.Store.{Code}
use at_app.World.{ok}
use at_app.Gateway.Access.{
  Bytes, answers, Identity, Admitted, protect, protect-Admitted, split, prepend, to_lower,
  token_part, identity_of, accept, check_token, auth_middleware, require_role, then_role,
}
use at_app.Gateway.RateLimit.{rate_limit, requests, requests-limited}
use at_app.Session.Codes.{next_code, format_code}
use at_app.Session.Rotated.{next_code-enough}
use at_app.Tests.Fixtures.{noon}
use at_app.Tests.Machine.{machine}
use at_app.Tests.Tokens.{jwt}

-- the bytes of `Bearer ` and those of a token without a space
abbrev header : Bytes
header = 66 ∷ 101 ∷ 97 ∷ 114 ∷ 101 ∷ 114 ∷ 32 ∷ 0 ∷ 9 ∷ 20 ∷ 2 ∷ 1 ∷ 0 ∷ 44100 ∷ 43200 ∷ 20 ∷ []

abbrev pupil : Identity
pupil = record { user_id = 20; role = 2; college_id = 1 }

protect-Admitted_example : Admitted jwt 9 (2 ∷ []) header 43300 pupil
unfolding machine protect split prepend to_lower token_part identity_of accept check_token
    auth_middleware require_role then_role
protect-Admitted_example = protect-Admitted jwt 9 (2 ∷ []) 43300 header pupil refl

-- Two more requests within the minute, and one at its last second.
abbrev later : List ℕ
later = 43210 ∷ 43258 ∷ []

requests-limited_example :
    (rate_limit 30 3 60 31
      (record (requests 30 3 60 31 later (rate_limit 30 3 60 31 noon).1) { now = 43259 })).0
    ≡ ok (answers 429 "too many requests, please try again later")
unfolding machine requests rate_limit
requests-limited_example =
    requests-limited 30 31 3 60 later 43259 noon (λ n. refl) (omega arith) refl
      (omega arith, (omega arith, tt))

next_code-enough_example : (x : Code × ℕ) × (next_code 2 (λ i. i) 5 (format_code 5) ≡ some x)
unfolding machine
next_code-enough_example = next_code-enough 1 (λ i. i) 5 (format_code 5) refl
