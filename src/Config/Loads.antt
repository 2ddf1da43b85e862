-- ===== src/Config/Loads.antt =====
-- `Load` (server/config/config.go).
use at_app.Base.{ℕ, Option, List, [], ◌∷◌, same_bytes}
use at_app.Config.Reads.{
  Text, Key, Environment, Boot, loads, ◌>>=◌, get_env, get_env_secret, get_env_parsed, get_env_list,
}

-- Seconds.
abbrev pub Duration : Type 0
Duration = ℕ

pub record Config : Type 0 where
  pub env : Text
  pub server_port : Text
  pub db_host : Text
  pub db_port : ℕ
  pub db_user : Text
  pub db_password : Text
  pub db_name : Text
  pub db_sslmode : Text
  pub redis_addr : Text
  pub jwt_secret : Text
  pub kafka_brokers : List Text
  pub allowed_origins : List Text
  pub platform_admin_key : Text
  pub smtp_host : Text
  pub smtp_port : Text
  pub smtp_username : Text
  pub smtp_password : Text
  pub smtp_from : Text
  pub fcm_project_id : Text
  pub fcm_service_account_json : Text
  pub raw_signal_retention : Duration
  pub raw_signal_prune_interval : Duration

-- The texts of the defaults.
-- "development"
abbrev pub development : Text
development = 100 ∷ 101 ∷ 118 ∷ 101 ∷ 108 ∷ 111 ∷ 112 ∷ 109 ∷ 101 ∷ 110 ∷ 116 ∷ []

-- "8080"
abbrev pub port_8080 : Text
port_8080 = 56 ∷ 48 ∷ 56 ∷ 48 ∷ []

-- "localhost"
abbrev pub localhost : Text
localhost = 108 ∷ 111 ∷ 99 ∷ 97 ∷ 108 ∷ 104 ∷ 111 ∷ 115 ∷ 116 ∷ []

-- "atapp_user"
abbrev pub atapp_user : Text
atapp_user = 97 ∷ 116 ∷ 97 ∷ 112 ∷ 112 ∷ 95 ∷ 117 ∷ 115 ∷ 101 ∷ 114 ∷ []

-- "atapp_password"
abbrev pub dev_password : Text
dev_password = 97 ∷ 116 ∷ 97 ∷ 112 ∷ 112 ∷ 95 ∷ 112 ∷ 97 ∷ 115 ∷ 115 ∷ 119 ∷ 111 ∷ 114 ∷ 100 ∷ []

-- "atapp_db"
abbrev pub atapp_db : Text
atapp_db = 97 ∷ 116 ∷ 97 ∷ 112 ∷ 112 ∷ 95 ∷ 100 ∷ 98 ∷ []

-- "disable"
abbrev pub disable : Text
disable = 100 ∷ 105 ∷ 115 ∷ 97 ∷ 98 ∷ 108 ∷ 101 ∷ []

-- "localhost:6380"
abbrev pub redis_default : Text
redis_default = 108 ∷ 111 ∷ 99 ∷ 97 ∷ 108 ∷ 104 ∷ 111 ∷ 115 ∷ 116 ∷ 58 ∷ 54 ∷ 51 ∷ 56 ∷ 48 ∷ []

-- "super-secret-jwt-signing-key-for-atapp-development"
abbrev pub dev_jwt_secret : Text
dev_jwt_secret =
    115 ∷ 117 ∷ 112 ∷ 101 ∷ 114 ∷ 45 ∷ 115 ∷ 101 ∷ 99 ∷ 114 ∷ 101 ∷ 116 ∷ 45 ∷ 106 ∷ 119 ∷ 116 ∷ 45
    ∷ 115 ∷ 105 ∷ 103 ∷ 110 ∷ 105 ∷ 110 ∷ 103 ∷ 45 ∷ 107 ∷ 101 ∷ 121 ∷ 45 ∷ 102 ∷ 111 ∷ 114 ∷ 45
    ∷ 97 ∷ 116 ∷ 97 ∷ 112 ∷ 112 ∷ 45 ∷ 100 ∷ 101 ∷ 118 ∷ 101 ∷ 108 ∷ 111 ∷ 112 ∷ 109 ∷ 101 ∷ 110
    ∷ 116 ∷ []

-- "localhost:19092"
abbrev pub kafka_default : Text
kafka_default = 108 ∷ 111 ∷ 99 ∷ 97 ∷ 108 ∷ 104 ∷ 111 ∷ 115 ∷ 116 ∷ 58 ∷ 49 ∷ 57 ∷ 48 ∷ 57 ∷ 50 ∷ []

-- "*"
abbrev pub any_origin : Text
any_origin = 42 ∷ []

-- "dev-platform-admin-key"
abbrev pub dev_platform_key : Text
dev_platform_key =
    100 ∷ 101 ∷ 118 ∷ 45 ∷ 112 ∷ 108 ∷ 97 ∷ 116 ∷ 102 ∷ 111 ∷ 114 ∷ 109 ∷ 45 ∷ 97 ∷ 100 ∷ 109 ∷ 105
    ∷ 110 ∷ 45 ∷ 107 ∷ 101 ∷ 121 ∷ []

-- "587"
abbrev pub port_587 : Text
port_587 = 53 ∷ 56 ∷ 55 ∷ []

-- "no-reply@atapp.example.com"
abbrev pub no_reply : Text
no_reply =
    110 ∷ 111 ∷ 45 ∷ 114 ∷ 101 ∷ 112 ∷ 108 ∷ 121 ∷ 64 ∷ 97 ∷ 116 ∷ 97 ∷ 112 ∷ 112 ∷ 46 ∷ 101 ∷ 120
    ∷ 97 ∷ 109 ∷ 112 ∷ 108 ∷ 101 ∷ 46 ∷ 99 ∷ 111 ∷ 109 ∷ []

-- `atoi` is strconv.Atoi and `duration` time.ParseDuration.
module _ (atoi : Text → Option ℕ) (duration : Text → Option Duration) (lookup : Environment) where
  -- The secrets and lists come in the order of the struct's fields.
  unfoldable pub load : Boot Config
  unfolding get_env get_env_secret get_env_parsed get_env_list ◌>>=◌ same_bytes
  load =
      let env = get_env lookup Key.app_env development in
      let is_dev = same_bytes env development in
      get_env_secret lookup Key.db_password dev_password is_dev >>= λ db_password.
      get_env_secret lookup Key.jwt_secret dev_jwt_secret is_dev >>= λ jwt_secret.
      get_env_list lookup Key.kafka_brokers (kafka_default ∷ []) is_dev >>= λ brokers.
      get_env_list lookup Key.allowed_origins (any_origin ∷ []) is_dev >>= λ origins.
      get_env_secret lookup Key.platform_admin_key dev_platform_key is_dev >>= λ platform_key.
      loads (record {
        env = env;
        server_port = get_env lookup Key.server_port port_8080;
        db_host = get_env lookup Key.db_host localhost;
        db_port = get_env_parsed lookup atoi Key.db_port 5433;
        db_user = get_env lookup Key.db_user atapp_user;
        db_password = db_password;
        db_name = get_env lookup Key.db_name atapp_db;
        db_sslmode = get_env lookup Key.db_sslmode disable;
        redis_addr = get_env lookup Key.redis_addr redis_default;
        jwt_secret = jwt_secret;
        kafka_brokers = brokers;
        allowed_origins = origins;
        platform_admin_key = platform_key;
        smtp_host = get_env lookup Key.smtp_host [];
        smtp_port = get_env lookup Key.smtp_port port_587;
        smtp_username = get_env lookup Key.smtp_username [];
        smtp_password = get_env lookup Key.smtp_password [];
        smtp_from = get_env lookup Key.smtp_from no_reply;
        fcm_project_id = get_env lookup Key.fcm_project_id [];
        fcm_service_account_json = get_env lookup Key.fcm_service_account_json [];
        raw_signal_retention = get_env_parsed lookup duration Key.raw_signal_retention 86400;
        raw_signal_prune_interval =
            get_env_parsed lookup duration Key.raw_signal_prune_interval 3600;
      })
