-- ===== src/Notification/Push.antt =====
-- Push messages over FCM (server/internal/notification/fcm.go). Google's endpoints are a parameter:
-- what the exchange of a signed assertion yields, and whether a message is taken. So are the JSON and
-- PEM decoding and the signature.
use at_app.Base.{
  ℕ, ◌+◌, Bool, true, false, not, ◌&&◌, ◌||◌, Option, none, some, ◌==◌, ltb, if◌then◌else◌,
}
use at_app.Store.{Uuid, Text, Time}
use at_app.World.{World, Result, ok, err}
use at_app.Notification.Devices.{lookup_device_token}

pub record ServiceAccount : Type 0 where
  pub client_email : Text
  pub private_key : Text
  pub token_uri : Text

-- What `NewFCMNotifier` asks of the account; `is_rsa_key` says that the text decodes to an RSA key.
unfoldable pub new_fcm_notifier : (Text → Bool) → Option ServiceAccount → Option ServiceAccount
new_fcm_notifier is_rsa_key none = none
new_fcm_notifier is_rsa_key (some a) =
    if a.client_email == 0 || a.private_key == 0 || a.token_uri == 0
    then none
    else if is_rsa_key a.private_key
    then some a
    else none

-- The notifier's cache: cachedToken and tokenExpiry.
pub record TokenCache : Type 0 where
  pub cached_token : Text
  pub token_expiry : Time

pub record TokenResponse : Type 0 where
  pub access_token : Text
  pub expires_in : ℕ

-- The claims of the assertion, but for the constants of the scope.
pub record AssertionClaims : Type 0 where
  pub iss : Text
  pub aud : Text
  pub iat : Time
  pub exp : Time

unfoldable pub assertion_claims : ServiceAccount → Time → AssertionClaims
assertion_claims a now = record {
  iss = a.client_email;
  aud = a.token_uri;
  iat = now;
  exp = now + 3600;
}

-- f.cachedToken != "" && time.Now().Before(f.tokenExpiry.Add(-1*time.Minute))
unfoldable pub is_fresh : TokenCache → Time → Bool
is_fresh c now = not (c.cached_token == 0) && ltb (now + 60) c.token_expiry

-- The store behind an exchange.
unfoldable pub minted : TokenCache → Time → Option TokenResponse → Option Text × TokenCache
minted c now none = (none, c)
minted c now (some r) = (
  some r.access_token,
  record { cached_token = r.access_token; token_expiry = now + r.expires_in },
)

module _ (exchange : AssertionClaims → Option TokenResponse) (account : ServiceAccount) where
  -- `none` is an error; the clock does not move on the way.
  unfoldable pub access_token : Time → TokenCache → Option Text × TokenCache
  unfolding is_fresh minted assertion_claims
  access_token now c =
      if is_fresh c now
      then (some c.cached_token, c)
      else minted c now (exchange (assertion_claims account now))

  -- `true` for a message that FCM has taken with status 200.
  module _ (deliver : Text → Text → Text → Text → Bool) where
    unfoldable pub send_to_token : Time → Text → Text → Text → TokenCache → Bool × TokenCache
    unfolding access_token
    send_to_token now token title body c =
        let (bearer, c') = access_token now c in
        elim bearer [ none ↦ (false, c') | some b ↦ (deliver b token title body, c') ]

    -- A user without a device is no error.
    unfoldable pub push : Time → Text → Text → Result Text → TokenCache → Bool × TokenCache
    unfolding send_to_token
    push now title body (err e) c = (false, c)
    push now title body (ok token) c =
        if token == 0 then (true, c) else send_to_token now token title body c

    unfoldable pub send_push_notification :
        Uuid → Uuid → Text → Text → TokenCache × World → Bool × TokenCache × World
    unfolding lookup_device_token push
    send_push_notification college user title body (c, w) =
        let (r, w') = lookup_device_token college user w in
        let (sent, c') = push w.now title body r c in (sent, c', w')
