-- ===== src/Gateway/Probes.antt =====
-- The CORS headers, the probes and the choice of the notifier (server/main.go), and of the sender of
-- emails (server/internal/notification/email.go). A text is the list of its bytes.
use at_app.Base.{
  ℕ, Bool, true, false, not, ◌&&◌, Option, none, some, List, [], String, if◌then◌else◌, same_bytes,
  exists_where,
}
use at_app.World.{Svc, ◌>>=◌, pure, reach}
use at_app.Auth.Handlers.{Response, json, error}
use at_app.Config.Reads.{Text}
use at_app.Config.Loads.{Config, any_origin}

-- Access-Control-Allow-Origin, and whether `Vary: Origin` is set.
pub record CorsHeaders : Type 0 where
  pub allow_origin : Option Text
  pub varies : Bool

unfoldable pub cors_headers : List Text → Text → CorsHeaders
unfolding same_bytes exists_where
cors_headers allowed_origins origin =
    if exists_where (λ o. same_bytes o any_origin) allowed_origins
    then record { allow_origin = some any_origin; varies = false }
    else if not (same_bytes origin []) && exists_where (λ o. same_bytes o origin) allowed_origins
    then record { allow_origin = some origin; varies = true }
    else record { allow_origin = none; varies = false }

-- A preflight request is answered here; `none` goes on to the next handler.
unfoldable pub cors : List Text → Bool → Text → CorsHeaders × Option ℕ
unfolding cors_headers
cors allowed_origins is_options origin =
    (cors_headers allowed_origins origin, if is_options then some 200 else none)

-- The pings of Postgres, then of Redis.
unfoldable pub ping_redis : Bool → Svc (Response String)
unfolding reach ◌>>=◌ pure
ping_redis false = pure (error 503 "database not ready")
ping_redis true = do up ← reach; pure (if up then json 200 "ready" else error 503 "redis not ready")

unfoldable pub readyz : Svc (Response String)
unfolding reach ◌>>=◌ ping_redis
readyz = do up ← reach; ping_redis up

-- SMTP with a host, and the console without.
pub data EmailSender : Type 0 where
  console_email : EmailSender
  smtp : Text → Text → Text → Text → Text → EmailSender

unfoldable pub new_email_sender : Config → EmailSender
unfolding same_bytes
new_email_sender cfg =
    if same_bytes cfg.smtp_host []
    then console_email
    else smtp cfg.smtp_host cfg.smtp_port cfg.smtp_username cfg.smtp_password cfg.smtp_from

-- FCM where both of its variables are set; `parses` says that the account's JSON yields a notifier,
-- and the process ends (`none`) where it does not.
pub data Notifier : Type 0 where
  console_push : Notifier
  fcm : Text → Text → Notifier

unfoldable pub choose_notifier : (Text → Bool) → Config → Option Notifier
unfolding same_bytes
choose_notifier parses cfg =
    if not (same_bytes cfg.fcm_project_id []) && not (same_bytes cfg.fcm_service_account_json [])
    then if parses cfg.fcm_service_account_json
      then some (fcm cfg.fcm_project_id cfg.fcm_service_account_json)
      else none
    else some console_push
