-- ===== src/Proxy/Event.antt =====
-- proxy/logger.go: the usage event. Its metadata is the decoded JSON object, kept as its text, and
-- `none` for Go's nil map.
use airelay.Base.{ℕ, Bool, Option, Bytes}
use airelay.Uuid.{Uuid}
use airelay.Float.{Float64}

pub record UsageEvent : Type 0 where
  pub project_id : Uuid
  pub api_key_id : Uuid
  pub provider : Bytes
  pub model : Bytes
  pub prompt_tokens : ℕ
  pub completion_tokens : ℕ
  pub cost_usd : Option Float64
  pub duration_ms : ℕ
  pub status_code : ℕ
  pub metadata : Option Bytes
  pub fail_open : Bool
