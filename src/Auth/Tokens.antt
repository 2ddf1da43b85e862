-- ===== src/Auth/Tokens.antt =====
-- Tokens and their purposes (server/internal/auth/jwt.go). The package golang-jwt is a parameter.
use at_app.Base.{
  ℕ, ◌+◌, ◌*◌, Bool, true, false, not, ◌||◌, Option, none, some, List, ◌≡◌, ◌<◌, ◌==◌,
  if◌then◌else◌,
}
use at_app.Store.{Uuid, Text, Time}

-- The texts of `token_type`; `other` is any other.
pub data TokenType : Type 0 where
  access refresh password_reset : TokenType
  other : Text → TokenType

-- The empty text is 0.
pub record Claims : Type 0 where
  pub user_id : Uuid
  pub role : Text
  pub college_id : Uuid
  pub token_type : TokenType
  pub expires_at : Time
  pub issued_at : Time
  pub subject : Uuid

pub data Method : Type 0 where
  hs256 : Method
  other_method : ℕ → Method

abbrev pub Secret : Type 0
Secret = Text

-- the bytes of a signed token
abbrev pub Token : Type 0
Token = List ℕ

-- What the code relies on: `SignedString`; and `ParseWithClaims` under a key function, at a time,
-- with the claims that it decodes and `token.Valid`.
pub record Jwt : Type 0 where
  pub sign : Method → Claims → Secret → Option Token
  pub parse : (Method → Option Secret) → Time → Token → Option (Claims × Bool)

-- The documented behaviour of the package: a signed token parses before it expires under a key
-- function that yields its key, to the claims that it was signed with; and never afterwards. A
-- `Claims` has an expiry, as all tokens of this server do; a token without one is not represented.
pub record JwtLaws (jwt : Jwt) : Type 0 where
  pub parse_signed :
      (key : Method → Option Secret) (m : Method) (c : Claims) (s : Secret) (t : Token) (now : Time)
      → jwt.sign m c s ≡ some t
      → key m ≡ some s
      → now < c.expires_at
      → jwt.parse key now t ≡ some (c, true)
  pub parse_claims :
      (key : Method → Option Secret) (m : Method) (c : Claims) (s : Secret) (t : Token) (now : Time)
      (p : Claims × Bool)
      → jwt.sign m c s ≡ some t
      → jwt.parse key now t ≡ some p
      → p.0 ≡ c
  pub parse_unexpired :
      (key : Method → Option Secret) (now : Time) (t : Token) (p : Claims × Bool)
      → jwt.parse key now t ≡ some p
      → now < (p.0).expires_at

pub record TokenPair : Type 0 where
  pub access_token : Token
  pub refresh_token : Token

-- An access token lives for 15 minutes, a refresh token for 7 days, a reset token for 30 minutes.
unfoldable pub access_claims : Uuid → Text → Uuid → Time → Claims
access_claims user role college now = record {
  user_id = user;
  role = role;
  college_id = college;
  token_type = TokenType.access;
  expires_at = now + 15 * 60;
  issued_at = now;
  subject = user;
}

unfoldable pub refresh_claims : Uuid → Text → Uuid → Time → Claims
refresh_claims user role college now = record {
  user_id = user;
  role = role;
  college_id = college;
  token_type = TokenType.refresh;
  expires_at = now + 7 * 24 * 3600;
  issued_at = now;
  subject = user;
}

unfoldable pub reset_claims : Uuid → Text → Uuid → Time → Claims
reset_claims user role college now = record {
  user_id = user;
  role = role;
  college_id = college;
  token_type = TokenType.password_reset;
  expires_at = now + 30 * 60;
  issued_at = now;
  subject = user;
}

-- `claims.TokenType != expectedType`, negated
unfoldable pub same_type : TokenType → TokenType → Bool
same_type TokenType.access TokenType.access = true
same_type TokenType.refresh TokenType.refresh = true
same_type TokenType.password_reset TokenType.password_reset = true
same_type (TokenType.other a) (TokenType.other b) = a == b
same_type _ _ = false

-- `claims.UserID == "" || claims.Role == "" || claims.CollegeID == ""`
unfoldable pub is_anonymous : Claims → Bool
is_anonymous c = c.user_id == 0 || c.role == 0 || c.college_id == 0

-- The key function: only HS256 has a key.
unfoldable pub key_of : Secret → Method → Option Secret
key_of secret hs256 = some secret
key_of secret (other_method n) = none

-- The checks on a parsed token.
unfoldable pub admit : TokenType → Option (Claims × Bool) → Option Claims
admit expected none = none
admit expected (some (c, valid)) =
    if not valid
    then none
    else if not (same_type c.token_type expected)
    then none
    else if is_anonymous c
    then none
    else some c

module _ (jwt : Jwt) where
  open jwt use {sign, parse}

  unfoldable pub generate_token_pair : Uuid → Text → Uuid → Secret → Time → Option TokenPair
  generate_token_pair user role college secret now =
      elim (sign hs256 (access_claims user role college now) secret) [
        | none ↦ none
        | some a ↦ elim (sign hs256 (refresh_claims user role college now) secret) [
          | none ↦ none
          | some r ↦ some (record { access_token = a; refresh_token = r })
        ]
      ]

  unfoldable pub generate_password_reset_token : Uuid → Text → Uuid → Secret → Time → Option Token
  generate_password_reset_token user role college secret now =
      sign hs256 (reset_claims user role college now) secret

  unfoldable pub validate_token : Token → Secret → TokenType → Time → Option Claims
  unfolding admit key_of
  validate_token t secret expected now = admit expected (parse (key_of secret) now t)

  unfoldable pub validate_password_reset_token : Token → Secret → Time → Option Claims
  unfolding validate_token
  validate_password_reset_token t secret = validate_token t secret TokenType.password_reset

  unfoldable pub validate_access_token : Token → Secret → Time → Option Claims
  unfolding validate_token
  validate_access_token t secret = validate_token t secret TokenType.access

  unfoldable pub validate_refresh_token : Token → Secret → Time → Option Claims
  unfolding validate_token
  validate_refresh_token t secret = validate_token t secret TokenType.refresh
