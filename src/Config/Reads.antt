-- ===== src/Config/Reads.antt =====
-- `getEnv` and the like (server/config/config.go).
use at_app.Base.{
  ℕ, Bool, not, ◌||◌, Option, none, some, List, [], ◌∷◌, ◌==◌, if◌then◌else◌, same_bytes,
}

abbrev pub Text : Type 0
Text = List ℕ

-- The variables that `Load` reads.
pub data Key : Type 0 where
  app_env server_port db_host db_port db_user db_password db_name db_sslmode redis_addr : Key
  jwt_secret kafka_brokers allowed_origins platform_admin_key : Key
  smtp_host smtp_port smtp_username smtp_password smtp_from : Key
  fcm_project_id fcm_service_account_json raw_signal_retention raw_signal_prune_interval : Key

-- os.LookupEnv
abbrev pub Environment : Type 0
Environment = Key → Option Text

-- `log.Fatalf` ends the process with a message about the variable, and so does `panic`.
pub data Boot {ℓ} (A : Type ℓ) : Type ℓ where
  loads : A → Boot A
  refuses panics : Key → Boot A

module _ {A B : Type 0} where
  infixl 5 ◌>>=◌
  unfoldable pub ◌>>=◌ : Boot A → (A → Boot B) → Boot B
  loads a >>= f = f a
  refuses k >>= f = refuses k
  panics k >>= f = panics k

module _ (lookup : Environment) where
  unfoldable pub get_env : Key → Text → Text
  get_env key default = elim (lookup key) [ none ↦ default | some val ↦ val ]

  -- `ok && val != ""`
  unfoldable pub given : Key → Option Text
  given key = elim (lookup key) [
    | none ↦ none
    | some val ↦ elim val [ [] ↦ none | b ∷ bs ↦ some (b ∷ bs) ]
  ]

  unfoldable pub get_env_secret : Key → Text → Bool → Boot Text
  unfolding given
  get_env_secret key dev_default is_dev = elim (given key) [
    | some val ↦ loads val
    | none ↦ if not is_dev then refuses key else loads dev_default
  ]

  -- `parse` is strconv.Atoi or time.ParseDuration; a text that it rejects counts as unset.
  unfoldable pub get_env_parsed : {A : Type 0} → (Text → Option A) → Key → A → A
  get_env_parsed parse key default = elim (lookup key) [
    | none ↦ default
    | some val ↦ elim (parse val) [ none ↦ default | some a ↦ a ]
  ]

-- strings.Split at the comma
unfoldable pub split_commas : Text → List Text
split_commas [] = [] ∷ []
split_commas (b ∷ bs) =
    let rest = split_commas bs in
    if b == 44 then [] ∷ rest else elim rest [ [] ↦ (b ∷ []) ∷ [] | t ∷ ts ↦ (b ∷ t) ∷ ts ]

-- The ASCII white space: tab to carriage return, and the blank.
unfoldable pub is_space : ℕ → Bool
is_space b = b == 9 || b == 10 || b == 11 || b == 12 || b == 13 || b == 32

unfoldable pub trim_left : Text → Text
unfolding is_space
trim_left [] = []
trim_left (b ∷ bs) = let rest = trim_left bs in if is_space b then rest else b ∷ bs

-- A byte in front of a text without white space at its end: a blank one goes if nothing follows.
unfoldable pub trim_onto : ℕ → Text → Text
unfolding is_space
trim_onto b [] = if is_space b then [] else b ∷ []
trim_onto b (x ∷ xs) = b ∷ x ∷ xs

unfoldable pub trim_right : Text → Text
unfolding trim_onto
trim_right [] = []
trim_right (b ∷ bs) = trim_onto b (trim_right bs)

-- strings.TrimSpace, on ASCII
unfoldable pub trim_space : Text → Text
unfolding trim_left trim_right
trim_space t = trim_right (trim_left t)

unfoldable pub trimmed_entries : List Text → List Text
unfolding trim_space same_bytes
trimmed_entries [] = []
trimmed_entries (p ∷ ps) =
    let rest = trimmed_entries ps in
    if same_bytes (trim_space p) [] then rest else trim_space p ∷ rest

-- A list without an entry is a panic.
unfoldable pub some_entries : Key → List Text → Boot (List Text)
some_entries key [] = panics key
some_entries key (t ∷ ts) = loads (t ∷ ts)

unfoldable pub get_env_list : Environment → Key → List Text → Bool → Boot (List Text)
unfolding given split_commas trimmed_entries some_entries
get_env_list lookup key dev_default is_dev = elim (given lookup key) [
  | none ↦ if not is_dev then refuses key else loads dev_default
  | some val ↦ some_entries key (trimmed_entries (split_commas val))
]
