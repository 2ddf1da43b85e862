-- ===== src/Auth/Purposes.antt =====
-- The purposes and lifetimes of tokens (server/internal/auth/jwt.go).
use at_app.Base.{
  ◌+◌, true, false, none, some, ◌≡◌, refl, ◌∙◌, ◌<◌, ◌≤◌, ap, subst, arith, Option-cases, ◌⊎◌, inl,
  inr,
}
use at_app.Store.{Uuid, Text, Time}
use at_app.Auth.Tokens.{
  TokenType, Claims, hs256, Secret, Token, Jwt, JwtLaws, TokenPair, access_claims, refresh_claims,
  same_type, is_anonymous, key_of, admit, generate_token_pair, validate_token,
  validate_access_token, validate_refresh_token, validate_password_reset_token,
}

generate_token_pair-inv :
    (jwt : Jwt) (user : Uuid) (role : Text) (college : Uuid) (secret : Secret) (now : Time)
    (p : TokenPair)
    → generate_token_pair jwt user role college secret now ≡ some p
    → (jwt.sign hs256 (access_claims user role college now) secret ≡ some p.access_token)
      × (jwt.sign hs256 (refresh_claims user role college now) secret ≡ some p.refresh_token)
unfolding generate_token_pair
generate_token_pair-inv jwt user role college secret now p h = ground arith

key_of-hs256 : {s : Secret} → key_of s hs256 ≡ some s
unfolding key_of
key_of-hs256 = refl

module _ (jwt : Jwt) (laws : JwtLaws jwt) (secret : Secret) where
  -- A token of claims that name a user, within its lifetime, passes for its own purpose.
  pub validate_token-signed :
      (c : Claims) (t : Token) (now : Time)
      → jwt.sign hs256 c secret ≡ some t
      → is_anonymous c ≡ false
      → same_type c.token_type c.token_type ≡ true
      → now < c.expires_at
      → validate_token jwt t secret c.token_type now ≡ some c
  unfolding validate_token admit
  validate_token-signed c t now h named same early =
      rw (laws.parse_signed (key_of secret) hs256 c secret t now h key_of-hs256 early)
        (ground (arith, named, same))

  -- It passes for no other purpose, and not once it has expired.
  validate_token-rejected :
      (c : Claims) (t : Token) (now : Time) (expected : TokenType)
      → jwt.sign hs256 c secret ≡ some t
      → (same_type c.token_type expected ≡ false) ⊎ (c.expires_at ≤ now)
      → validate_token jwt t secret expected now ≡ none
  unfolding validate_token admit
  validate_token-rejected c t now expected h why =
      elim (Option-cases (jwt.parse (key_of secret) now t)) [
        | inl n ↦ rw n refl
        | inr (p, n) ↦
            let e = laws.parse_claims (key_of secret) hs256 c secret t now p h n in
            let early = laws.parse_unexpired (key_of secret) now t p n in
            elim why [
              | inl s ↦
                  let s2 : same_type (p.0).token_type expected ≡ false =
                    ap (λ y. same_type y.token_type expected) e ∙ s in
                  rw n (ground (arith, s2))
              | inr late ↦
                  let early2 : now < c.expires_at = subst (λ y. now < y.expires_at) e early in
                  ground (arith, late, early2)
            ]
      ]

  -- Where the identity has no empty part: for 15 minutes from its issue, the access token of a pair
  -- is accepted, with the claims that it was issued for.
  access_token-accepted :
      (user : Uuid) (role : Text) (college : Uuid) (issued now : Time) (p : TokenPair)
      → generate_token_pair jwt user role college secret issued ≡ some p
      → is_anonymous (access_claims user role college issued) ≡ false
      → now < issued + 900
      → validate_access_token jwt p.access_token secret now
        ≡ some (access_claims user role college issued)
  unfolding validate_access_token access_claims same_type is_anonymous
  access_token-accepted user role college issued now p h named early =
      let (a, r) = generate_token_pair-inv jwt user role college secret issued p h in
      validate_token-signed (access_claims user role college issued) _ now a named refl
        (omega (arith, early))

  -- Where the identity has no empty part: for 7 days from its issue, the refresh token of a pair is
  -- accepted, with the claims that it was issued for.
  refresh_token-accepted :
      (user : Uuid) (role : Text) (college : Uuid) (issued now : Time) (p : TokenPair)
      → generate_token_pair jwt user role college secret issued ≡ some p
      → is_anonymous (refresh_claims user role college issued) ≡ false
      → now < issued + 604800
      → validate_refresh_token jwt p.refresh_token secret now
        ≡ some (refresh_claims user role college issued)
  unfolding validate_refresh_token refresh_claims same_type is_anonymous
  refresh_token-accepted user role college issued now p h named early =
      let (a, r) = generate_token_pair-inv jwt user role college secret issued p h in
      validate_token-signed (refresh_claims user role college issued) _ now r named refl
        (omega (arith, early))

  -- Where the identity has no empty part: the tokens of a pair are accepted, each for its purpose and
  -- with the claims that it was issued for, the access token for 15 minutes from its issue and the
  -- refresh token for 7 days.
  pub token_pair-accepted :
      (user : Uuid) (role : Text) (college : Uuid) (issued now later : Time) (p : TokenPair)
      → generate_token_pair jwt user role college secret issued ≡ some p
      → is_anonymous (access_claims user role college issued) ≡ false
      → now < issued + 900
      → later < issued + 604800
      → (validate_access_token jwt p.access_token secret now
          ≡ some (access_claims user role college issued))
        × (validate_refresh_token jwt p.refresh_token secret later
            ≡ some (refresh_claims user role college issued))
  unfolding access_claims refresh_claims is_anonymous
  token_pair-accepted user role college issued now later p h named early in_time = (
    access_token-accepted user role college issued now p h named early,
    refresh_token-accepted user role college issued later p h named in_time,
  )

  -- The tokens of a pair do not stand in for one another, nor for a reset token, at any time.
  pub token_pair-purposes :
      (user : Uuid) (role : Text) (college : Uuid) (issued now : Time) (p : TokenPair)
      → generate_token_pair jwt user role college secret issued ≡ some p
      → (validate_refresh_token jwt p.access_token secret now ≡ none)
        × (validate_password_reset_token jwt p.access_token secret now ≡ none)
        × (validate_access_token jwt p.refresh_token secret now ≡ none)
        × (validate_password_reset_token jwt p.refresh_token secret now ≡ none)
  unfolding validate_access_token validate_refresh_token validate_password_reset_token access_claims
      refresh_claims same_type
  token_pair-purposes user role college issued now p h =
      let (a, r) = generate_token_pair-inv jwt user role college secret issued p h in
      let access = validate_token-rejected (access_claims user role college issued) _ now in
      let refresh = validate_token-rejected (refresh_claims user role college issued) _ now in
      (
        access TokenType.refresh a (inl refl),
        access TokenType.password_reset a (inl refl),
        refresh TokenType.access r (inl refl),
        refresh TokenType.password_reset r (inl refl),
      )

  -- From 15 minutes after it was issued, an access token is refused.
  pub access_token-expires :
      (user : Uuid) (role : Text) (college : Uuid) (issued now : Time) (p : TokenPair)
      → generate_token_pair jwt user role college secret issued ≡ some p
      → issued + 900 ≤ now
      → validate_access_token jwt p.access_token secret now ≡ none
  unfolding validate_access_token access_claims
  access_token-expires user role college issued now p h late =
      let (a, r) = generate_token_pair-inv jwt user role college secret issued p h in
      validate_token-rejected (access_claims user role college issued) _ now TokenType.access a
        (inr (omega (arith, late)))
