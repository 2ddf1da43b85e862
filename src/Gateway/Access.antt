-- ===== src/Gateway/Access.antt =====
-- `AuthMiddleware`, `RequireRole` and `RequirePlatformKey` (server/internal/gateway/middleware.go
-- and platform.go). A middleware either lets a request through or answers it.
use at_app.Base.{
  ℕ, ◌+◌, true, ◌&&◌, Option, none, some, List, [], ◌∷◌, String, ◌==◌, leb, ◌≡◌, refl, sym, ◌∙◌,
  arith, same_bytes, exists_where, Bool-cases, if◌then◌else◌, ap, inl, inr,
}
use at_app.Store.{Uuid, Text, Time}
use at_app.Auth.Tokens.{Jwt, Secret, Claims, validate_access_token}

-- A header's bytes; a missing header has none.
abbrev pub Bytes : Type 0
Bytes = List ℕ

-- What a middleware does: the handler behind it runs with a value, or it answers itself.
pub data Gate (A : Type 0) : Type 0 where
  passes : A → Gate A
  answers : ℕ → String → Gate A

-- The context's keys `user_id`, `role` and `college_id`.
pub record Identity : Type 0 where
  pub user_id : Uuid
  pub role : Text
  pub college_id : Uuid

unfoldable pub prepend : ℕ → List Bytes → List Bytes
prepend b [] = (b ∷ []) ∷ []
prepend b (p ∷ parts) = (b ∷ p) ∷ parts

-- strings.Split(s, " ")
unfoldable pub split : Bytes → List Bytes
unfolding prepend
split [] = [] ∷ []
split (b ∷ bs) = let rest = split bs in if b == 32 then [] ∷ rest else prepend b rest

-- strings.ToLower, for the letters of ASCII
unfoldable pub to_lower : Bytes → Bytes
to_lower [] = []
to_lower (b ∷ bs) = (if leb 65 b && leb b 90 then b + 32 else b) ∷ to_lower bs

-- the bytes of `bearer`
abbrev pub bearer : Bytes
bearer = 98 ∷ 101 ∷ 97 ∷ 114 ∷ 101 ∷ 114 ∷ []

-- len(parts) == 2 and the first is `bearer`: the second
unfoldable pub token_part : List Bytes → Option Bytes
unfolding to_lower
token_part (scheme ∷ t ∷ []) = if same_bytes (to_lower scheme) bearer then some t else none
token_part _ = none

unfoldable pub identity_of : Claims → Identity
identity_of c = record { user_id = c.user_id; role = c.role; college_id = c.college_id }

unfoldable pub accept : Option Claims → Gate Identity
unfolding identity_of
accept none = answers 401 "invalid or expired access token"
accept (some c) = passes (identity_of c)

module _ (jwt : Jwt) where
  unfoldable pub check_token : Secret → Time → Option Bytes → Gate Identity
  unfolding accept
  check_token secret now none =
      answers 401 "authorization header must be in 'Bearer <token>' format"
  check_token secret now (some t) = accept (validate_access_token jwt t secret now)

  unfoldable pub auth_middleware : Secret → Bytes → Time → Gate Identity
  unfolding check_token token_part split
  auth_middleware secret [] now = answers 401 "authorization header is required"
  auth_middleware secret (b ∷ bs) now = check_token secret now (token_part (split (b ∷ bs)))

-- The role in the context; a missing one is a request that no `AuthMiddleware` has seen.
unfoldable pub require_role : List Text → Option Identity → Gate Identity
require_role allowed none = answers 403 "forbidden: missing role verification"
require_role allowed (some i) =
    if exists_where (λ r. i.role == r) allowed
    then passes i
    else answers 403 "forbidden: insufficient permissions"

-- The comparison takes the same time for every key of that length.
unfoldable pub require_platform_key : Bytes → Bytes → Gate (Unit {0})
require_platform_key key [] = answers 403 "forbidden: invalid platform admin key"
require_platform_key key (b ∷ bs) =
    if same_bytes (b ∷ bs) key
    then passes tt
    else answers 403 "forbidden: invalid platform admin key"

unfoldable pub then_role : List Text → Gate Identity → Gate Identity
unfolding require_role
then_role allowed (passes i) = require_role allowed (some i)
then_role allowed (answers n s) = answers n s

-- r.Use(gateway.AuthMiddleware(…)), then r.Use(gateway.RequireRole(…))
unfoldable pub protect : Jwt → Secret → List Text → Bytes → Time → Gate Identity
unfolding auth_middleware then_role
protect jwt secret allowed header now = then_role allowed (auth_middleware jwt secret header now)

token_part-some :
    (parts : List Bytes) (t : Bytes)
    → token_part parts ≡ some t
    → (scheme : Bytes) × (parts ≡ scheme ∷ t ∷ []) × (same_bytes (to_lower scheme) bearer ≡ true)
unfolding token_part
token_part-some [] t h = cc
token_part-some (a ∷ []) t h = cc
token_part-some (a ∷ b ∷ []) t h = (a, ground (arith, h), ground (arith, h))
token_part-some (a ∷ b ∷ c ∷ l) t h = cc

-- The header was `bearer`, in any case, and a token; the token is a valid access token of these
-- claims; and their role is allowed.
pub record Admitted (jwt : Jwt) (secret : Secret) (allowed : List Text) (header : Bytes)
    (now : Time) (i : Identity) : Type 0 where
  pub scheme : Bytes
  pub token : Bytes
  pub parts : split header ≡ scheme ∷ token ∷ []
  pub is_bearer : same_bytes (to_lower scheme) bearer ≡ true
  pub claims : Claims
  pub valid : validate_access_token jwt token secret now ≡ some claims
  pub identity : i ≡ identity_of claims
  pub may : exists_where (λ r. claims.role == r) allowed ≡ true

passes-injective : {A : Type 0} {a b : A} → passes a ≡ passes b → a ≡ b
passes-injective h = cc

accept-passes :
    (o : Option Claims) (i : Identity)
    → accept o ≡ passes i
    → (c : Claims) × (o ≡ some c) × (identity_of c ≡ i)
unfolding accept
accept-passes none i h = cc
accept-passes (some c) i h = (c, refl, passes-injective h)

pub then_role-passes :
    (allowed : List Text) (g : Gate Identity) (i : Identity)
    → then_role allowed g ≡ passes i
    → (g ≡ passes i) × (exists_where (λ r. i.role == r) allowed ≡ true)
unfolding then_role require_role
then_role-passes allowed (answers n s) i h = cc
then_role-passes allowed (passes j) i h =
    elim (Bool-cases (exists_where (λ r. j.role == r) allowed)) [
      | inl t ↦
          let e : j ≡ i = ground (arith, h, t) in
          (ap passes e, ap (λ y. exists_where (λ r. y.role == r) allowed) (sym e) ∙ t)
      | inr f ↦
          let e : answers 403 "forbidden: insufficient permissions" ≡ passes i =
            ground (arith, h, f) in
          cc
    ]

module _ (jwt : Jwt) (secret : Secret) (allowed : List Text) (now : Time) where
  check_token-passes :
      (o : Option Bytes) (i : Identity)
      → check_token jwt secret now o ≡ passes i
      → (t : Bytes) × (c : Claims) × (o ≡ some t)
        × (validate_access_token jwt t secret now ≡ some c)
        × (identity_of c ≡ i)
  unfolding check_token
  check_token-passes none i h = cc
  check_token-passes (some t) i h = let (c, v, e) = accept-passes _ i h in (t, c, refl, v, e)

  pub auth_middleware-passes :
      (header : Bytes) (i : Identity)
      → auth_middleware jwt secret header now ≡ passes i
      → (t : Bytes) × (c : Claims) × (token_part (split header) ≡ some t)
        × (validate_access_token jwt t secret now ≡ some c)
        × (identity_of c ≡ i)
  unfolding auth_middleware
  auth_middleware-passes [] i h = cc
  auth_middleware-passes (b ∷ bs) i h = check_token-passes _ i h

  -- A request that reaches a handler behind `AuthMiddleware` and `RequireRole` had a header of
  -- `bearer`, in any case, one space and a valid access token; the handler's identity is the one of
  -- the token, and its role is an allowed one.
  pub protect-Admitted :
      (header : Bytes) (i : Identity)
      → protect jwt secret allowed header now ≡ passes i
      → Admitted jwt secret allowed header now i
  unfolding protect identity_of
  protect-Admitted header i h =
      let (g, may) = then_role-passes allowed _ i h in
      let (t, c, part, valid, e) = auth_middleware-passes header i g in
      let (scheme, parts, is_bearer) = token_part-some (split header) t part in
      record {
        scheme = scheme;
        token = t;
        parts = parts;
        is_bearer = is_bearer;
        claims = c;
        valid = valid;
        identity = sym e;
        may = ap (λ y. exists_where (λ r. y.role == r) allowed) e ∙ may;
      }
