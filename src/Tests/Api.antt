-- ===== src/Tests/Api.antt =====
-- A small management API to run the model in, with stand-ins for its packages.
pub mod Access
pub mod Limits
pub mod Others
pub mod Runs
pub mod Spending
pub mod Accounts
pub mod Slugs
pub mod Stored
use airelay.Base.{
  ℕ, zero, suc, ◌+◌, ◌<◌, ◌≤◌, ◌≡◌, ◌⊎◌, inl, inr, refl, Bool, true, false, not, Option, none, some,
  List, [], ◌∷◌, ◌++◌, Bytes, codes, bytes_eq, bytes_eq_iff, has_prefix, ltb, if◌then◌else◌, any,
  arith,
}
use airelay.Float.{Float64}
use airelay.Time.{Time, instant}
use airelay.Uuid.{Uuid}
use airelay.Models.{
  User, Project, ApiKey, ProviderCredential, provider_openai, plan_free, UsageEvent, ModelPricing,
}
use airelay.Api.Http.{Json, Reply, no_content, write_error, Claims, Request, BodyJson}
use airelay.Api.Db.{Db, Outcome, Store, M, Flow, stop, next}
use airelay.Api.Projects.{owned, active_projects, delete_project}
use airelay.Api.Keys.{active_keys, revoke_key, is_active_key}
use airelay.Api.Plans.{PlanLimits, limits}
use airelay.Api.Auth.{Bcrypt, Jwt, issue_token, claims_at}
use airelay.Api.Usage.{Grouping}
use airelay.Api.RateLimit.{Limiting, Event, requests, sweeps, decisions}
use airelay.Api.RateLimit.Refines.{Refills, ideal, no_visitors, decisions_refine}
use airelay.Api.Server.{Route, Inputs, handler_of, handle}
use airelay.Api.Server.Guarded.{JwtLaws}
use airelay.Api.Server.Rows.{rows_of}
use airelay.Api.Server.Isolation.{handler_of-isolates}
use airelay.Api.Server.Quota.{QuotaKept, handler_of-QuotaKept}
use airelay.Api.Lifecycle.{
  credential_query, revoke_key-credential_query, delete_project-credential_query,
}
use airelay.Tests.{noon, letters, toy_uuid, toy_float, toy_crypto}

instance abbrev pub toy_bcrypt : Bcrypt
toy_bcrypt = record { hash_password = λ salt s. some s; matches = bytes_eq }

-- A token is 1 and the claims of a user of the free plan.
abbrev token_of : Claims → Bool → Option Bytes
token_of c true = some (1 ∷ c.user_id ∷ c.expires_at ∷ c.issued_at ∷ c.email)
token_of c false = none

abbrev method_of : Bytes → Bytes
method_of (suc _ ∷ _) = codes "HS256"
method_of _ = codes "none"

abbrev claims_of : ℕ → Bytes → Option Claims
claims_of now (suc _ ∷ user ∷ expires ∷ issued ∷ email) =
    if ltb now expires
    then some (record {
      user_id = user;
      email = email;
      plan = plan_free;
      expires_at = expires;
      issued_at = issued;
    })
    else none
claims_of now _ = none

abbrev parse_keyed : Option Bytes → ℕ → Bytes → Option Claims
parse_keyed none now t = none
parse_keyed (some _) now t = claims_of now t

instance abbrev pub toy_jwt : Jwt
toy_jwt = record {
  sign = λ c key. token_of c (bytes_eq c.plan plan_free);
  is_hmac = λ m. bytes_eq m (codes "HS256");
  parse_with_claims = λ keys t now. parse_keyed (keys (method_of t)) now t;
}

parse-sign_toy :
    (c : Claims) (free : Bool) (key t : Bytes) (keys : Bytes → Option Bytes) (now : ℕ)
    → (free ≡ true → c.plan ≡ plan_free)
    → token_of c free ≡ some t
    → keys (method_of t) ≡ some key
    → now < c.expires_at
    → parse_keyed (keys (method_of t)) now t ≡ some c
parse-sign_toy c true key [] keys now e h k before = ground arith
parse-sign_toy c true key (suc x ∷ u ∷ l ∷ i ∷ email) keys now e h k before =
    let plan = e refl in rw k (ground arith)
parse-sign_toy c true key (suc x ∷ u ∷ l ∷ []) keys now e h k before = ground arith
parse-sign_toy c true key (suc x ∷ u ∷ []) keys now e h k before = ground arith
parse-sign_toy c true key (suc x ∷ []) keys now e h k before = ground arith
parse-sign_toy c true key (zero ∷ t) keys now e h k before = ground arith
parse-sign_toy c false key t keys now e h k before = ground arith

method-sign_toy :
    (free : Bool) (t : Bytes) (c : Claims) → token_of c free ≡ some t → method_of t ≡ codes "HS256"
method-sign_toy true [] c h = ground arith
method-sign_toy true (zero ∷ t) c h = ground arith
method-sign_toy true (suc x ∷ t) c h = refl
method-sign_toy false t c h = ground arith

pub toy_jwt-JwtLaws : JwtLaws toy_jwt
toy_jwt-JwtLaws = record {
  IsText = λ s. Unit {0};
  method = method_of;
  method-sign = λ c key t h. method-sign_toy (bytes_eq c.plan plan_free) t c h;
  hs256_hmac = refl;
  parse-sign = λ c key t keys now h k _ _.
      parse-sign_toy c (bytes_eq c.plan plan_free) key t keys now (bytes_eq_iff c.plan plan_free).0
        h k;
  parse_keyless = λ keys t now h. rw h refl;
}

abbrev named : Bytes → Option Bytes
named s = some (codes "demo")

instance abbrev pub toy_body : BodyJson
toy_body = record {
  login = λ s. some (s, s);
  name = named;
  credential = λ s. some (provider_openai, s);
  budget = λ s. some (5, codes "daily", true);
}

instance abbrev pub toy_grouping : Grouping
toy_grouping = record { by_model = λ es. []; by_day = λ es. [] }

abbrev toy_user : User
toy_user = record {
  id = 5;
  email = [];
  password_hash = [];
  plan = plan_free;
  stripe_customer_id = none;
  created_at = noon;
}

abbrev pub project_of : Uuid → Uuid → Bytes → Project
project_of id user slug = record {
  id = id;
  user_id = user;
  name = codes "demo";
  slug = slug;
  created_at = noon;
  archived_at = none;
}

abbrev pub toy_key : ApiKey
toy_key = record {
  id = 3;
  project_id = 7;
  key_hash = codes "hash";
  key_prefix = codes "air_sk_1";
  name = codes "first";
  last_used_at = none;
  revoked_at = none;
  created_at = noon;
}

abbrev pub toy_credential : ProviderCredential
toy_credential = record {
  id = 4;
  project_id = 7;
  provider = provider_openai;
  encrypted_key = codes "sealed";
  revoked_at = none;
  created_at = noon;
}

-- User 5 has project 7 with a key and a credential; project 8 is of user 6.
abbrev pub toy_db : Db
toy_db = record {
  users = toy_user ∷ [];
  projects = project_of 7 5 (codes "demo-1") ∷ project_of 8 6 (codes "demo-2") ∷ [];
  api_keys = toy_key ∷ [];
  provider_credentials = toy_credential ∷ [];
  budgets = [];
  usage_events = [];
  model_pricing = [];
}

abbrev pub toy_store : Store
toy_store = record { db = toy_db; script = λ n. record { ok = true; id = 20 + n; now = noon } }

abbrev pub toy_claims : Claims
toy_claims = claims_at 5 [] plan_free noon

abbrev pub toy_inputs : Inputs
toy_inputs = record {
  jwt_secret = letters 32;
  enc_key = letters 32;
  now = noon;
  slug_id = 9;
  random = letters 24;
  nonce = some (letters 12);
  salt = [];
  spend = λ k. 0;
  stored = λ a. a;
  atoi = λ s. 1;
  by_name = λ ps. ps;
  allowed = true;
}

-- The path names a project by its id, and key 3.
abbrev pub path_of : Uuid → Bytes → Bytes
path_of id name = if bytes_eq name (codes "id") then (id + 128) ∷ [] else 131 ∷ []

abbrev pub toy_token : Bytes
toy_token = 1 ∷ 5 ∷ toy_claims.expires_at ∷ toy_claims.issued_at ∷ []

abbrev pub request_for : Uuid → Request
request_for id = record {
  authorization = codes "Bearer " ++ toy_token;
  remote_addr = codes "10.0.0.1:4000";
  claims = none;
  path_value = path_of id;
  query = λ k. [];
  body = [];
}
