-- ===== src/Api/Server.antt =====
-- api/server.go: the routes of the management API with their middleware. The mux, which chooses the
-- route and fills the path values, is that of net/http.
pub mod Guarded
pub mod Isolation
pub mod Quota
pub mod Private
pub mod Run
pub mod Rows
pub mod Signup
pub mod Writes
use airelay.Base.{ℕ, Bool, true, false, not, Option, some, List, [], ◌∷◌, Bytes, codes, map}
use airelay.Float.{Float64, FloatOps}
use airelay.Time.{Time}
use airelay.Uuid.{Uuid, UuidLib}
use airelay.Models.{ModelPricing}
use airelay.Encrypt.{CryptoLib}
use airelay.Api.Http.{Json, text, Reply, write_json, write_error, Request, BodyJson}
use airelay.Api.Db.{
  Db, Store, M, ◌>>=◌, ◌>>◌, pure, refuse, refuse_if, or_refuse, query, execute, Flow, next, stop,
  settle, reply_of,
}
use airelay.Api.Projects.{list_projects, create_project, get_project, delete_project}
use airelay.Api.Keys.{list_keys, create_key, revoke_key}
use airelay.Api.Credentials.{list_credentials, add_credential, revoke_credential}
use airelay.Api.Budgets.{get_budgets, upsert_budget, delete_budget}
use airelay.Api.Auth.{Bcrypt, Jwt, require_auth, signup, login, me}
use airelay.Api.Usage.{Grouping, list_usage, summarise_usage, list_models}

-- The routes that `authed` guards, and the open ones.
pub data Route : Type 0 where
  auth_me : Route
  projects_list projects_create projects_get projects_delete : Route
  keys_list keys_create keys_revoke : Route
  creds_list creds_add creds_revoke : Route
  budgets_get budgets_upsert budgets_delete : Route
  usage_summary usage_list : Route

pub data OpenRoute : Type 0 where
  auth_signup auth_login models_list : OpenRoute

-- What a request meets outside: the configuration, the clock, the random bytes, the packages.
pub record Inputs : Type 0 where
  pub jwt_secret : Bytes
  pub enc_key : Bytes
  pub now : Time
  -- of generateSlug, GenerateKey, Encrypt and bcrypt
  pub slug_id : Uuid
  pub random : Bytes
  pub nonce : Option Bytes
  pub salt : Bytes
  -- the GET of a spend counter, and the column of the amounts
  pub spend : Bytes → Float64
  pub stored : Float64 → Float64
  pub atoi : Bytes → ℕ
  pub by_name : List ModelPricing → List ModelPricing
  -- the decision of the rate limiter on the address
  pub allowed : Bool

-- chain(h, middlewares...): the first middleware is the outermost.
unfoldable pub chain {ℓ} : {A : Type ℓ} → A → List (A → A) → A
chain h [] = h
chain h (m ∷ ms) = m (chain h ms)

abbrev pub Handler : Type 0
Handler = Request → M Reply

-- The handler that IPRateLimit returns.
unfoldable pub rate_limited : Bool → Handler → Handler
rate_limited allowed handler r = do
  refuse_if (not allowed) (write_error 429 (codes "too many requests"))
  handler r

module _ ⦃fl : FloatOps⦄ ⦃lib : UuidLib⦄ ⦃crypto : CryptoLib⦄ ⦃bcrypt : Bcrypt⦄ ⦃jwt : Jwt⦄
    ⦃json : BodyJson⦄ ⦃group : Grouping⦄ where
  -- The handlers behind `authed`.
  unfoldable pub handler_of : Route → Inputs → Handler
  handler_of auth_me x = me
  handler_of projects_list x = list_projects
  handler_of projects_create x = create_project x.slug_id
  handler_of projects_get x = get_project
  handler_of projects_delete x = delete_project
  handler_of keys_list x = list_keys
  handler_of keys_create x = create_key x.random
  handler_of keys_revoke x = revoke_key
  handler_of creds_list x = list_credentials
  handler_of creds_add x = add_credential x.enc_key x.nonce
  handler_of creds_revoke x = revoke_credential
  handler_of budgets_get x = get_budgets x.spend x.now
  handler_of budgets_upsert x = upsert_budget x.stored
  handler_of budgets_delete x = delete_budget
  handler_of usage_summary x = summarise_usage x.now
  handler_of usage_list x = list_usage x.atoi x.now

  unfoldable pub handle : Route → Inputs → Handler
  unfolding chain
  handle route x = chain (handler_of route x) (require_auth x.jwt_secret x.now ∷ [])

  unfoldable pub handle_open : OpenRoute → Inputs → Handler
  handle_open auth_signup x = rate_limited x.allowed (signup x.salt)
  handle_open auth_login x = rate_limited x.allowed (login x.jwt_secret x.now)
  handle_open models_list x = list_models x.by_name
