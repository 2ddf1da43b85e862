-- ===== src/Config/Secured.antt =====
-- The secrets of a server that starts outside development (server/config/config.go).
use at_app.Base.{
  ℕ, Bool, false, Option, none, some, List, [], ◌∷◌, ◌≡◌, ◌∙◌, refl, sym, ap, subst, arith,
  same_bytes,
}
use at_app.Config.Reads.{
  Text, Key, Environment, Boot, loads, refuses, panics, ◌>>=◌, get_env, given, get_env_secret,
  split_commas, trimmed_entries, some_entries, get_env_list,
}
use at_app.Config.Loads.{
  Duration, Config, development, load, dev_password, dev_jwt_secret, kafka_default, any_origin,
  dev_platform_key,
}

loads-injective : {A : Type 0} {a b : A} → loads a ≡ loads b → a ≡ b
loads-injective h = cc

bind-loads :
    {A B : Type 0} (m : Boot A) (f : A → Boot B) (b : B)
    → (m >>= f) ≡ loads b
    → (a : A) × (m ≡ loads a) × (f a ≡ loads b)
unfolding ◌>>=◌
bind-loads (loads a) f b h = (a, refl, h)
bind-loads (refuses k) f b h = cc
bind-loads (panics k) f b h = cc

module _ (lookup : Environment) (key : Key) where
  -- The variable is set to that text, which is not empty.
  pub record Supplied (val : Text) : Type 0 where
    pub set : lookup key ≡ some val
    pub filled : same_bytes val [] ≡ false

  -- The variable is set, and the list is that of its trimmed_entries; there is one.
  pub record Listed (vals : List Text) : Type 0 where
    pub val : Text
    pub supplied : Supplied val
    pub parts : vals ≡ trimmed_entries (split_commas val)
    pub first : Text
    pub others : List Text
    pub has_entry : vals ≡ first ∷ others

  given-Supplied : (val : Text) → given lookup key ≡ some val → Supplied val
  unfolding given same_bytes
  given-Supplied val h = record { set = ground arith; filled = ground arith }

  get_env_secret-Supplied :
      (dev_default val : Text) (is_dev : Bool)
      → is_dev ≡ false
      → get_env_secret lookup key dev_default is_dev ≡ loads val
      → Supplied val
  unfolding get_env_secret
  get_env_secret-Supplied dev_default val is_dev dev h = given-Supplied val (ground (arith, dev, h))

  some_entries-loads :
      (ts vals : List Text)
      → some_entries key ts ≡ loads vals
      → (t : Text) × (rest : List Text) × (vals ≡ t ∷ rest) × (vals ≡ ts)
  unfolding some_entries
  some_entries-loads [] vals h = cc
  some_entries-loads (t ∷ ts) vals h = let e = loads-injective h in (t, ts, sym e, sym e)

  get_env_list-Listed :
      (dev_default vals : List Text) (is_dev : Bool) (o : Option Text)
      → given lookup key ≡ o
      → is_dev ≡ false
      → get_env_list lookup key dev_default is_dev ≡ loads vals
      → Listed vals
  unfolding get_env_list
  get_env_list-Listed dev_default vals is_dev none g dev h =
      let k : refuses key ≡ loads vals = ground (arith, g, dev, h) in cc
  get_env_list-Listed dev_default vals is_dev (some val) g dev h =
      let k : some_entries key (trimmed_entries (split_commas val)) ≡ loads vals =
        ground (arith, g, dev, h) in
      let (t, rest, e, p) = some_entries-loads _ vals k in
      record {
        val = val;
        supplied = given-Supplied val g;
        parts = p;
        first = t;
        others = rest;
        has_entry = e;
      }

module _ (atoi : Text → Option ℕ) (duration : Text → Option Duration) (lookup : Environment) where
  -- If `Load` returns a configuration whose environment is not `development`, then the database
  -- password, the signing secret of the tokens and the platform's key are the non-empty texts that
  -- their variables are set to, and the brokers and the allowed origins are the non-empty lists of
  -- the entries of theirs: no default of development is left.
  pub load-Supplied :
      (cfg : Config)
      → load atoi duration lookup ≡ loads cfg
      → same_bytes cfg.env development ≡ false
      → Supplied lookup Key.db_password cfg.db_password
        × Supplied lookup Key.jwt_secret cfg.jwt_secret
        × Supplied lookup Key.platform_admin_key cfg.platform_admin_key
        × Listed lookup Key.kafka_brokers cfg.kafka_brokers
        × Listed lookup Key.allowed_origins cfg.allowed_origins
  unfolding load
  load-Supplied cfg h outside =
      let is_dev = same_bytes (get_env lookup Key.app_env development) development in
      let (password, p, h1) =
        bind-loads (get_env_secret lookup Key.db_password dev_password is_dev) _ cfg h in
      let (secret, s, h2) =
        bind-loads (get_env_secret lookup Key.jwt_secret dev_jwt_secret is_dev) _ cfg h1 in
      let (brokers, b, h3) =
        bind-loads (get_env_list lookup Key.kafka_brokers (kafka_default ∷ []) is_dev) _ cfg h2 in
      let (origins, o, h4) =
        bind-loads (get_env_list lookup Key.allowed_origins (any_origin ∷ []) is_dev) _ cfg h3 in
      let (platform, k, h5) =
        bind-loads (get_env_secret lookup Key.platform_admin_key dev_platform_key is_dev) _ cfg
          h4 in
      let e = loads-injective h5 in
      let dev : same_bytes (get_env lookup Key.app_env development) development ≡ false =
        ap (λ c. same_bytes c.env development) e ∙ outside in
      (
        subst (Supplied lookup Key.db_password) (ap (λ c. c.db_password) e)
            (get_env_secret-Supplied lookup Key.db_password dev_password password is_dev dev p),
        subst (Supplied lookup Key.jwt_secret) (ap (λ c. c.jwt_secret) e)
            (get_env_secret-Supplied lookup Key.jwt_secret dev_jwt_secret secret is_dev dev s),
        subst (Supplied lookup Key.platform_admin_key) (ap (λ c. c.platform_admin_key) e) (
            get_env_secret-Supplied lookup Key.platform_admin_key dev_platform_key platform is_dev
              dev k),
        subst (Listed lookup Key.kafka_brokers) (ap (λ c. c.kafka_brokers) e) (
            get_env_list-Listed lookup Key.kafka_brokers (kafka_default ∷ []) brokers is_dev _ refl
              dev b),
        subst (Listed lookup Key.allowed_origins) (ap (λ c. c.allowed_origins) e) (
            get_env_list-Listed lookup Key.allowed_origins (any_origin ∷ []) origins is_dev _ refl
              dev o),
      )
