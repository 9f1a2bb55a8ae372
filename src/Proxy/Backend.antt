-- ===== src/Proxy/Backend.antt =====
-- What the proxy calls outside this repository: the clock, Redis (go-redis) and Postgres (pgx). The
-- state of that world is abstract and each call passes it on, so a call may fail, and other
-- processes may act, between any two calls.
use airelay.Base.{ℕ, Bool, Option, List, Bytes}
use airelay.Float.{Float64}
use airelay.Time.{Time}
use airelay.Uuid.{Uuid}
use airelay.Models.{AiProvider, Budget}
use airelay.Proxy.Event.{UsageEvent}

-- The outcome of a GET: a value, redis.Nil, or another error.
pub data Get {ℓ} (A : Type ℓ) : Type ℓ where
  found : A → Get A
  nil failed : Get A

-- The outcome of a TTL: go-redis gives a negative duration for a key that is missing or that has no
-- expiry.
pub data Ttl : Type 0 where
  negative : Ttl
  remaining : ℕ → Ttl

-- The row that the query of `resolveFromDB` scans.
pub record CredentialRow : Type 0 where
  pub api_key_id : Uuid
  pub project_id : Uuid
  pub provider : AiProvider
  pub encrypted_key : Bytes

-- A Boolean result says that the call returned no error; `none` is an error.
pub record Backend (W : Type 0) : Type 0 where
  -- time.Now().UTC()
  pub now : W → Time × W
  pub redis_ping : W → Bool × W
  -- Get(key).Float64() and Set(key, value, ttl), whose result the program ignores
  pub redis_get_float : Bytes → W → Get Float64 × W
  pub redis_set_float : Bytes → Float64 → ℕ → W → W
  pub redis_get_text : Bytes → W → Get Bytes × W
  pub redis_set_text : Bytes → Bytes → ℕ → W → W
  pub redis_incr_by_float : Bytes → Float64 → W → Bool × W
  pub redis_ttl : Bytes → W → Option Ttl × W
  pub redis_expire : Bytes → ℕ → W → W
  -- SELECT … FROM budgets WHERE project_id = $1, with its scan
  pub db_budgets : Uuid → W → Option (List Budget) × W
  -- SELECT COALESCE(SUM(cost_usd), 0) FROM usage_events WHERE project_id = $1 AND created_at >= $2
  pub db_spend_since : Uuid → ℕ → W → Option Float64 × W
  -- the query of `resolveFromDB`, by key hash and provider
  pub db_credential : Bytes → AiProvider → W → Option CredentialRow × W
  -- the INSERT of `writeUsageEvent`; the result says that it returned no error
  pub db_insert_event : UsageEvent → W → Bool × W
  -- SELECT input_cost_per_1k, output_cost_per_1k FROM model_pricing WHERE provider=$1 AND model=$2
  pub db_pricing : Bytes → Bytes → W → Option (Float64 × Float64) × W
