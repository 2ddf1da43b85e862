-- ===== src/Tests/Tokens.antt =====
-- The theorems on tokens, at a package that writes the claims out.
use at_app.Base.{
  ℕ, zero, suc, ◌+◌, ◌<◌, Bool, true, Option, none, some, [], ◌∷◌, ◌==◌, ==-refl, ltb, ◌&&◌, ◌≡◌,
  refl, sym, ◌∙◌, ap, subst, if◌then◌else◌, arith,
}
use at_app.Store.{Time, Role}
use at_app.Auth.Tokens.{
  TokenType, Claims, Method, hs256, other_method, Secret, Token, Jwt, JwtLaws, TokenPair,
  access_claims, refresh_claims, reset_claims, validate_access_token, validate_refresh_token,
  validate_password_reset_token,
}
use at_app.Auth.Accounts.{Bcrypt, UserDto, login, confirm_password_reset}
use at_app.Auth.Logins.{LoggedIn, PasswordSet}
use at_app.Auth.Purposes.{token_pair-accepted, token_pair-purposes, access_token-expires}
use at_app.Guarantees.Accounts.{login-LoggedIn, confirm_password_reset-PasswordSet}
use at_app.Tests.Fixtures.{noon}
use at_app.Tests.Machine.{machine}

abbrev method_number : Method → ℕ
method_number hs256 = 0
method_number (other_method n) = suc n

abbrev method_of : ℕ → Method
method_of zero = hs256
method_of (suc n) = other_method n

abbrev type_number : TokenType → ℕ
type_number TokenType.access = 0
type_number TokenType.refresh = 1
type_number TokenType.password_reset = 2
type_number (TokenType.other t) = suc (suc (suc t))

abbrev type_of : ℕ → TokenType
type_of zero = TokenType.access
type_of (suc zero) = TokenType.refresh
type_of (suc (suc zero)) = TokenType.password_reset
type_of (suc (suc (suc t))) = TokenType.other t

method_of-number : (m : Method) → method_of (method_number m) ≡ m
method_of-number hs256 = refl
method_of-number (other_method n) = refl

type_of-number : (t : TokenType) → type_of (type_number t) ≡ t
type_of-number TokenType.access = refl
type_of-number TokenType.refresh = refl
type_of-number TokenType.password_reset = refl
type_of-number (TokenType.other t) = refl

abbrev written : Method → Claims → Secret → Token
written m c s =
    method_number m
    ∷ s
    ∷ c.user_id
    ∷ c.role
    ∷ c.college_id
    ∷ type_number c.token_type
    ∷ c.expires_at
    ∷ c.issued_at
    ∷ c.subject
    ∷ []

abbrev checked : Option Secret → Secret → Time → Claims → Option (Claims × Bool)
checked none s now c = none
checked (some k) s now c = if k == s && ltb now c.expires_at then some (c, true) else none

abbrev parsed : (Method → Option Secret) → Time → Token → Option (Claims × Bool)
parsed key now (m ∷ s ∷ user ∷ role ∷ college ∷ t ∷ e ∷ i ∷ sub ∷ []) =
    checked (key (method_of m)) s now (record {
      user_id = user;
      role = role;
      college_id = college;
      token_type = type_of t;
      expires_at = e;
      issued_at = i;
      subject = sub;
    })
parsed key now _ = none

abbrev pub jwt : Jwt
jwt = record { sign = λ m c s. some (written m c s); parse = parsed }

parsed-written :
    (key : Method → Option Secret) (now : Time) (m : Method) (c : Claims) (s : Secret)
    → parsed key now (written m c s) ≡ checked (key m) s now c
parsed-written key now m c s = rw (method_of-number m, type_of-number c.token_type) refl

checked-claims :
    (k : Option Secret) (s : Secret) (now : Time) (c : Claims) (p : Claims × Bool)
    → checked k s now c ≡ some p
    → (p.0 ≡ c) × (now < c.expires_at)
checked-claims none s now c p h = cc
checked-claims (some k) s now c p h = (ground (arith, h), ground (arith, h))

parsed-unexpired :
    (key : Method → Option Secret) (now : Time) (t : Token) (p : Claims × Bool)
    → parsed key now t ≡ some p
    → now < (p.0).expires_at
parsed-unexpired key now [] p q = cc
parsed-unexpired key now (a ∷ []) p q = cc
parsed-unexpired key now (a ∷ b ∷ []) p q = cc
parsed-unexpired key now (a ∷ b ∷ c ∷ []) p q = cc
parsed-unexpired key now (a ∷ b ∷ c ∷ d ∷ []) p q = cc
parsed-unexpired key now (a ∷ b ∷ c ∷ d ∷ e ∷ []) p q = cc
parsed-unexpired key now (a ∷ b ∷ c ∷ d ∷ e ∷ f ∷ []) p q = cc
parsed-unexpired key now (a ∷ b ∷ c ∷ d ∷ e ∷ f ∷ g ∷ []) p q = cc
parsed-unexpired key now (a ∷ b ∷ c ∷ d ∷ e ∷ f ∷ g ∷ h ∷ []) p q = cc
parsed-unexpired key now (a ∷ b ∷ c ∷ d ∷ e ∷ f ∷ g ∷ h ∷ i ∷ []) p q =
    let (x, y) = checked-claims (key (method_of a)) b now _ p q in
    subst (λ c. now < c.expires_at) (sym x) y
parsed-unexpired key now (a ∷ b ∷ c ∷ d ∷ e ∷ f ∷ g ∷ h ∷ i ∷ j ∷ k) p q = cc

some-same : {A : Type 0} {a b : A} → some a ≡ some b → a ≡ b
some-same h = cc

checked-signed :
    (o : Option Secret) (s : Secret) (now : Time) (c : Claims)
    → o ≡ some s
    → now < c.expires_at
    → checked o s now c ≡ some (c, true)
checked-signed none s now c h early = cc
checked-signed (some k) s now c h early = ground (arith, ==-refl s, h, early)

laws : JwtLaws jwt
laws = record {
  parse_signed = λ key m c s t now h k early.
      ap (parsed key now) (sym (some-same h))
      ∙ parsed-written key now m c s
      ∙ checked-signed (key m) s now c k early;
  parse_claims = λ key m c s t now p h q.
      (checked-claims (key m) s now c p
        (sym (parsed-written key now m c s) ∙ ap (parsed key now) (some-same h) ∙ q)).0;
  parse_unexpired = parsed-unexpired;
}

abbrev pub bcrypt : Bcrypt
bcrypt = record { compare = λ hash p. hash == p + 1; generate = λ salt p. some (p + 1) }

abbrev pair : TokenPair
pair = record {
  access_token = written hs256 (access_claims 20 2 1 43200) 9;
  refresh_token = written hs256 (refresh_claims 20 2 1 43200) 9;
}

token_pair-accepted_example :
    (validate_access_token jwt pair.access_token 9 43300 ≡ some (access_claims 20 2 1 43200))
    × (validate_refresh_token jwt pair.refresh_token 9 143300 ≡ some (refresh_claims 20 2 1 43200))
unfolding machine
token_pair-accepted_example =
    token_pair-accepted jwt laws 9 20 2 1 43200 43300 143300 pair refl refl (omega arith)
      (omega arith)

token_pair-purposes_example :
    (validate_refresh_token jwt pair.access_token 9 43300 ≡ none)
    × (validate_password_reset_token jwt pair.access_token 9 43300 ≡ none)
    × (validate_access_token jwt pair.refresh_token 9 43300 ≡ none)
    × (validate_password_reset_token jwt pair.refresh_token 9 43300 ≡ none)
unfolding machine
token_pair-purposes_example = token_pair-purposes jwt laws 9 20 2 1 43200 43300 pair refl

access_token-expires_example : validate_access_token jwt pair.access_token 9 44100 ≡ none
unfolding machine
access_token-expires_example =
    access_token-expires jwt laws 9 20 2 1 43200 44100 pair refl (omega arith)

abbrev signed_in : TokenPair × UserDto
signed_in = (pair, record { id = 20; name = 70; email = 20; role = Role.student; college_id = 1 })

login-LoggedIn_example :
    LoggedIn jwt bcrypt 9 20 79 noon signed_in (login jwt bcrypt 9 20 79 noon).1
unfolding machine
login-LoggedIn_example = login-LoggedIn jwt bcrypt 9 20 79 noon signed_in refl

abbrev reset_token : Token
reset_token = written hs256 (reset_claims 20 2 1 43000) 9

confirm_password_reset-PasswordSet_example :
    PasswordSet jwt bcrypt 9 reset_token 33 noon
      (confirm_password_reset jwt bcrypt 9 reset_token 33 noon).1
unfolding machine
confirm_password_reset-PasswordSet_example =
    confirm_password_reset-PasswordSet jwt bcrypt 9 reset_token 33 noon refl
