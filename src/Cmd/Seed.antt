-- ===== src/Cmd/Seed.antt =====
-- cmd/seed/main.go, behind its connection to Postgres: the statements that give a fresh checkout a user,
-- a project, a key, its credentials and a budget. Its prints at the end are the result.
pub mod Kept
pub mod Resolves
pub mod Rows
pub mod Steps
use airelay.Base.{
  suc, ◌||◌, not, Bool, true, false, Option, none, some, List, [], ◌∷◌, ◌++◌, Bytes, codes,
  bytes_eq, ◌==◌, ◌&&◌, any, find, update_where, delete_where, if◌then◌else◌,
}
use airelay.Float.{Float64, FloatOps}
use airelay.Time.{Time}
use airelay.Uuid.{Uuid}
use airelay.Models.{
  User, Project, ApiKey, AiProvider, provider_openai, provider_anthropic, plan_pro, period_monthly,
}
use airelay.Config.{Config}
use airelay.Encrypt.{CryptoLib, Result, ok, err, encrypt}
use airelay.Proxy.Auth.{generate_key}
use airelay.Api.Db.{Db, Store}
use airelay.Api.Projects.{is_empty, insert_project}
use airelay.Api.Keys.{insert_key}
use airelay.Api.Credentials.{upsert_credential}
use airelay.Api.Budgets.{is_budget_of, upsert_over}

-- log.Fatalf ends the program.
pub data Ended {ℓ} (A : Type ℓ) : Type ℓ where
  fatal : Bytes → Ended A
  goes : A → Ended A

abbrev pub M {ℓ} : Type ℓ → Type ℓ
M A = Store → Ended A × Store

abbrev pub bind_ended {ℓ κ} : {A : Type ℓ} {B : Type κ} → Ended A → (A → M B) → M B
bind_ended (fatal m) f s = (fatal m, s)
bind_ended (goes a) f s = f a s

infixl 5 ◌>>=◌ ◌>>◌
abbrev pub ◌>>=◌ {ℓ κ} : {A : Type ℓ} {B : Type κ} → M A → (A → M B) → M B
◌>>=◌ m f s = bind_ended (m s).0 f (m s).1

abbrev pub ◌>>◌ {ℓ κ} : {A : Type ℓ} {B : Type κ} → M A → M B → M B
m >> k = m >>= λ _. k

abbrev pub pure {ℓ} : {A : Type ℓ} → A → M A
pure a s = (goes a, s)

abbrev pub or_fatal {ℓ} : {A : Type ℓ} → Option A → Bytes → M A
or_fatal none m s = (fatal m, s)
or_fatal (some a) m s = (goes a, s)

abbrev pub leave {ℓ} : {A : Type ℓ} → Option (A × Db) → M (Option A)
leave none s = (goes none, s)
leave (some (a, db)) s = (goes (some a), record s { db = db })

-- A statement, which may fail.
abbrev pub exec {ℓ} : {A : Type ℓ} → (Uuid → Time → Db → Option (A × Db)) → M (Option A)
exec f s =
    let o = s.script 0 in
    leave (if o.ok then f o.id o.now s.db else none) (record s { script = λ n. s.script (suc n) })

abbrev pub dev_email : Bytes
dev_email = codes "dev@airelay.dev"

abbrev pub dev_key : Bytes
dev_key = codes "dev-key"

abbrev pub dev_slug : Bytes
dev_slug = codes "dev-project"

-- INSERT INTO users … ON CONFLICT (email) DO UPDATE SET plan='pro' RETURNING id, by the row of the email.
unfoldable pub user_over : Bytes → Uuid → Time → Option User → Db → Option (Uuid × Db)
user_over hash id now none db =
    if any (λ u. u.id == id) db.users
    then none
    else some (
      id,
      record db {
        users =
            db.users
            ++ record {
              id = id;
              email = dev_email;
              password_hash = hash;
              plan = plan_pro;
              stripe_customer_id = none;
              created_at = now;
            }
              ∷ [];
      },
    )
user_over hash id now (some u) db = some (
  u.id,
  record db {
    users =
        update_where (λ x. bytes_eq x.email dev_email) (λ x. record x { plan = plan_pro }) db.users;
  },
)

unfoldable pub upsert_user : Bytes → Uuid → Time → Db → Option (Uuid × Db)
unfolding user_over
upsert_user hash id now db =
    user_over hash id now (find (λ u. bytes_eq u.email dev_email) db.users) db

abbrev pub first_of {ℓ κ} : {A : Type ℓ} {B : Type κ} → Option ((A × B) × Db) → Option (A × Db)
first_of none = none
first_of (some ((a, b), db)) = some (a, db)

-- INSERT INTO projects … ON CONFLICT (slug) DO UPDATE SET name='Dev Project' RETURNING id
unfoldable pub project_over : Uuid → Uuid → Time → Option Project → Db → Option (Uuid × Db)
project_over user id now none db =
    first_of (insert_project user (codes "Dev Project") dev_slug id now db)
project_over user id now (some p) db = some (
  p.id,
  record db {
    projects =
        update_where (λ x. bytes_eq x.slug dev_slug) (λ x. record x { name = codes "Dev Project" })
          db.projects;
  },
)

unfoldable pub upsert_project : Uuid → Uuid → Time → Db → Option (Uuid × Db)
unfolding project_over
upsert_project user id now db =
    project_over user id now (find (λ p. bytes_eq p.slug dev_slug) db.projects) db

-- DELETE FROM api_keys WHERE project_id=$1 AND name='dev-key'
unfoldable pub delete_dev_keys : Uuid → Uuid → Time → Db → Option (Unit {0} × Db)
delete_dev_keys project _ _ db = some (
  tt,
  record db {
    api_keys = delete_where (λ k. k.project_id == project && bytes_eq k.name dev_key) db.api_keys;
  },
)

-- INSERT INTO budgets … ON CONFLICT (project_id, period) DO NOTHING
unfoldable pub insert_budget : Uuid → Float64 → Uuid → Time → Db → Option (Uuid × Db)
insert_budget project amount id now db =
    if any (is_budget_of project period_monthly) db.budgets
    then some (id, db)
    else upsert_over project amount period_monthly true id now none db

abbrev pub or_none : Result Bytes → Option Bytes
or_none (ok c) = some c
or_none (err e) = none

-- What the command meets outside: the hash of the password, empty for an error, and random bytes.
pub record SeedInputs : Type 0 where
  pub password_hash : Bytes
  pub random : Bytes
  pub openai_nonce : Option Bytes
  pub anthropic_nonce : Option Bytes

module _ ⦃fl : FloatOps⦄ ⦃crypto : CryptoLib⦄ where
  -- The OpenAI credential, whose error is fatal. The rows of the conflict are not revoked, so that the
  -- upsert of the API, which also sets revoked_at to NULL, is this one.
  unfoldable pub seed_openai : Config → SeedInputs → Uuid → M (Unit {0})
  seed_openai cfg x project = do
    enc_key ←
        or_fatal (or_none (encrypt x.openai_nonce cfg.credential_encryption_key cfg.openai_key))
          (codes "encrypt openai key")
    stored ← exec (upsert_credential project provider_openai enc_key)
    or_fatal stored (codes "create openai credential")
    pure tt

  -- The Anthropic credential, whose statement's error is not read.
  unfoldable pub seed_anthropic : Config → SeedInputs → Uuid → M (Unit {0})
  seed_anthropic cfg x project = do
    enc_key ←
        or_fatal
          (or_none (encrypt x.anthropic_nonce cfg.credential_encryption_key cfg.anthropic_key))
          (codes "encrypt anthropic key")
    exec (upsert_credential project provider_anthropic enc_key)
    pure tt

  -- The project and the key that are printed.
  unfoldable pub seed : Config → SeedInputs → M (Uuid × Bytes)
  unfolding upsert_user upsert_project delete_dev_keys insert_budget seed_openai seed_anthropic
  seed cfg x = do
    created ← exec (upsert_user x.password_hash)
    user ← or_fatal created (codes "create user")
    made ← exec (upsert_project user)
    project ← or_fatal made (codes "create project")
    let (full_key, prefix, hash) = generate_key x.random
    exec (delete_dev_keys project)
    inserted ← exec (insert_key project hash prefix dev_key)
    or_fatal inserted (codes "create api key")
    if is_empty cfg.openai_key then pure tt else seed_openai cfg x project
    if is_empty cfg.anthropic_key then pure tt else seed_anthropic cfg x project
    exec (insert_budget project (fl.literal 10 1))
    pure (project, full_key)
