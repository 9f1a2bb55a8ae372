-- ===== src/Config.antt =====
-- internal/config/config.go. The environment is a function from names to values; os.Getenv gives the
-- empty text for a variable that is not set.
use airelay.Base.{
  ℕ, ◌≡◌, ◌≢◌, ◌↔◌, refl, Bool, true, false, not, [], ◌∷◌, Bytes, codes, length, ◌==◌,
  if◌then◌else◌, arith,
}

abbrev pub Env : Type 0
Env = Bytes → Bytes

pub record Config : Type 0 where
  pub database_url : Bytes
  pub redis_url : Bytes
  pub proxy_port : Bytes
  pub api_port : Bytes
  pub jwt_secret : Bytes
  pub credential_encryption_key : Bytes
  pub openai_key : Bytes
  pub anthropic_key : Bytes
  pub google_key : Bytes
  pub stripe_secret_key : Bytes
  pub stripe_webhook_secret : Bytes
  pub resend_api_key : Bytes
  pub post_hog_key : Bytes

pub data ConfigError : Type 0 where
  no_database_url no_redis_url no_jwt_secret : ConfigError
  bad_encryption_key : ℕ → ConfigError

pub data Loaded : Type 0 where
  loaded : Config → Loaded
  refused : ConfigError → Loaded

is_unset : Bytes → Bool
is_unset [] = true
is_unset (_ ∷ _) = false

-- getEnvOrDefault(key, defaultVal)
unfoldable pub get_env_or_default : Env → Bytes → Bytes → Bytes
unfolding is_unset
get_env_or_default env key default_val = if is_unset (env key) then default_val else env key

config_of : Env → Config
config_of env = record {
  database_url = env (codes "DATABASE_URL");
  redis_url = env (codes "REDIS_URL");
  proxy_port = get_env_or_default env (codes "PROXY_PORT") (codes "8081");
  api_port = get_env_or_default env (codes "API_PORT") (codes "8080");
  jwt_secret = env (codes "JWT_SECRET");
  credential_encryption_key = env (codes "CREDENTIAL_ENCRYPTION_KEY");
  openai_key = env (codes "OPENAI_API_KEY");
  anthropic_key = env (codes "ANTHROPIC_API_KEY");
  google_key = env (codes "GOOGLE_API_KEY");
  stripe_secret_key = env (codes "STRIPE_SECRET_KEY");
  stripe_webhook_secret = env (codes "STRIPE_WEBHOOK_SECRET");
  resend_api_key = env (codes "RESEND_API_KEY");
  post_hog_key = env (codes "POSTHOG_API_KEY");
}

-- The four checks, each before the next.
check_key : Config → Loaded
check_key cfg =
    if not (length cfg.credential_encryption_key == 32)
    then refused (bad_encryption_key (length cfg.credential_encryption_key))
    else loaded cfg

check_secret : Config → Loaded
unfolding is_unset check_key
check_secret cfg = if is_unset cfg.jwt_secret then refused no_jwt_secret else check_key cfg

check_redis : Config → Loaded
unfolding is_unset check_secret
check_redis cfg = if is_unset cfg.redis_url then refused no_redis_url else check_secret cfg

checked : Config → Loaded
unfolding is_unset check_redis
checked cfg = if is_unset cfg.database_url then refused no_database_url else check_redis cfg

unfoldable pub load : Env → Loaded
unfolding config_of checked
load env = checked (config_of env)

is_unset_lem : (s : Bytes) → (is_unset s ≡ false) ↔ (s ≢ [])
unfolding is_unset
is_unset_lem [] = (λ e. cc, λ h. absurd (h refl))
is_unset_lem (c ∷ s) = (λ _ e. cc, λ _. refl)

-- The four conditions of a configuration.
pub record IsComplete (env : Env) : Type 0 where
  pub has_database : env (codes "DATABASE_URL") ≢ []
  pub has_redis : env (codes "REDIS_URL") ≢ []
  pub has_secret : env (codes "JWT_SECRET") ≢ []
  pub key_size : length (env (codes "CREDENTIAL_ENCRYPTION_KEY")) ≡ 32

checked_complete : (env : Env) → IsComplete env → checked (config_of env) ≡ loaded (config_of env)
unfolding checked config_of
checked_complete env h =
    let a = (is_unset_lem (env (codes "DATABASE_URL"))).1 h.has_database in
    let b = (is_unset_lem (env (codes "REDIS_URL"))).1 h.has_redis in
    let c = (is_unset_lem (env (codes "JWT_SECRET"))).1 h.has_secret in
    rw (a, b, c, h.key_size) refl

guard_lem :
    (b : Bool) (e : ConfigError) (rest : Loaded) (cfg : Config)
    → (if b then refused e else rest) ≡ loaded cfg
    → (b ≡ false) × (rest ≡ loaded cfg)
guard_lem true e rest cfg h = cc
guard_lem false e rest cfg h = (refl, h)

checked-IsComplete :
    (env : Env) (cfg : Config) → checked (config_of env) ≡ loaded cfg → IsComplete env
unfolding checked config_of
checked-IsComplete env cfg e =
    let made = config_of env in
    let (a, e₁) = guard_lem (is_unset made.database_url) no_database_url (check_redis made) cfg e in
    let (b, e₂) = guard_lem (is_unset made.redis_url) no_redis_url (check_secret made) cfg e₁ in
    let (c, e₃) = guard_lem (is_unset made.jwt_secret) no_jwt_secret (check_key made) cfg e₂ in
    let (d, _) =
      guard_lem (not (length made.credential_encryption_key == 32))
        (bad_encryption_key (length made.credential_encryption_key)) (loaded made) cfg e₃ in
    record {
      has_database = (is_unset_lem made.database_url).0 a;
      has_redis = (is_unset_lem made.redis_url).0 b;
      has_secret = (is_unset_lem made.jwt_secret).0 c;
      key_size = ground arith;
    }

-- A configuration is loaded exactly when the database, Redis and the secret are set and the
-- encryption key has 32 bytes.
pub load_iff : (env : Env) → ((cfg : Config) × (load env ≡ loaded cfg)) ↔ IsComplete env
unfolding load
load_iff env =
    (λ (cfg, e). checked-IsComplete env cfg e, λ h. (config_of env, checked_complete env h))
