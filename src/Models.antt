-- ===== src/Models.antt =====
-- internal/models/models.go: the types that the services share. A Go string type is its bytes.
use airelay.Base.{ℕ, Bool, Option, Bytes, codes}
use airelay.Time.{Time}
use airelay.Uuid.{Uuid}
use airelay.Float.{Float64}

abbrev pub UserPlan : Type 0
UserPlan = Bytes

abbrev pub plan_free : UserPlan
plan_free = codes "free"

abbrev pub plan_pro : UserPlan
plan_pro = codes "pro"

abbrev pub plan_team : UserPlan
plan_team = codes "team"

abbrev pub AiProvider : Type 0
AiProvider = Bytes

abbrev pub provider_openai : AiProvider
provider_openai = codes "openai"

abbrev pub provider_anthropic : AiProvider
provider_anthropic = codes "anthropic"

abbrev pub provider_google : AiProvider
provider_google = codes "google"

abbrev pub BudgetPeriod : Type 0
BudgetPeriod = Bytes

abbrev pub period_daily : BudgetPeriod
period_daily = codes "daily"

abbrev pub period_monthly : BudgetPeriod
period_monthly = codes "monthly"

pub record User : Type 0 where
  pub id : Uuid
  pub email : Bytes
  pub password_hash : Bytes
  pub plan : UserPlan
  pub stripe_customer_id : Option Bytes
  pub created_at : Time

pub record Project : Type 0 where
  pub id : Uuid
  pub user_id : Uuid
  pub name : Bytes
  pub slug : Bytes
  pub created_at : Time
  pub archived_at : Option Time

pub record ApiKey : Type 0 where
  pub id : Uuid
  pub project_id : Uuid
  pub key_hash : Bytes
  pub key_prefix : Bytes
  pub name : Bytes
  pub last_used_at : Option Time
  pub revoked_at : Option Time
  pub created_at : Time

pub record ProviderCredential : Type 0 where
  pub id : Uuid
  pub project_id : Uuid
  pub provider : AiProvider
  pub encrypted_key : Bytes
  pub revoked_at : Option Time
  pub created_at : Time

pub record Budget : Type 0 where
  pub id : Uuid
  pub project_id : Uuid
  pub amount_usd : Float64
  pub period : BudgetPeriod
  pub hard_limit : Bool
  pub created_at : Time

-- No code of the services reads or writes one.
pub record AlertThreshold : Type 0 where
  pub id : Uuid
  pub budget_id : Uuid
  pub threshold_pct : ℕ
  pub notify_email : Bool
  pub notify_webhook_url : Option Bytes
  pub last_fired_at : Option Time

-- A row of usage_events, less its metadata, which no handler reads.
pub record UsageEvent : Type 0 where
  pub id : Uuid
  pub project_id : Uuid
  pub api_key_id : Uuid
  pub provider : Bytes
  pub model : Bytes
  pub prompt_tokens : ℕ
  pub completion_tokens : ℕ
  pub cost_usd : Option Float64
  pub duration_ms : ℕ
  pub status_code : ℕ
  pub fail_open : Bool
  pub created_at : Time

pub record ModelPricing : Type 0 where
  pub provider : Bytes
  pub model : Bytes
  pub input_cost_per_1k : Float64
  pub output_cost_per_1k : Float64
  pub synced_from : Bytes
  pub manual_override : Bool
  pub last_synced_at : Time

-- The zero value of `time.Time`, read in UTC (Go's year 1).
abbrev pub zero_time : Time
zero_time = record { year = 1; month = 1; day = 1; nanos = 0 }
