-- ===== src/Proxy/Serve.antt =====
-- proxy/handler.go, ServeHTTP. Each stage takes the result of the one before it and returns early or
-- calls the next. The other goroutines run between requests here, and the world between any two
-- calls.
pub mod Guards
pub mod Logging
pub mod Streams
pub mod Queues
pub mod Routes
use airelay.Base.{
  ℕ, Bool, true, false, not, ◌||◌, Option, none, some, List, [], ◌∷◌, ◌++◌, Bytes, codes,
  has_prefix, if◌then◌else◌,
}
use airelay.Float.{Float64, FloatOps}
use airelay.Uuid.{UuidLib}
use airelay.Encrypt.{CryptoLib}
use airelay.Models.{AiProvider, ModelPricing}
use airelay.Cost.{calculate}
use airelay.Tokens.{Usage, JsonLib}
use airelay.Proxy.Event.{UsageEvent}
use airelay.Proxy.Backend.{Backend}
use airelay.Proxy.Auth.{KeyLookup, key_prefix, resolve}
use airelay.Proxy.Budgets.{State, BudgetResult, check_budgets}
use airelay.Proxy.Logger.{Logger, log, write_usage_event}
use airelay.Proxy.Forward.{
  Request, Reply, ForwardResult, HttpLib, provider_url, forward, x_airelay_meta, get_header,
}
use airelay.Proxy.Handler.{
  Handler, Body, read, too_large, unreadable, RequestJson, slug_to_provider, split_path, is_blank,
  bearer_key, write_json, extract_model, parse_metadata, budgets_of, with_budgets, world_of,
  with_world, lookup_pricing,
}

-- The event before the counts are in.
unfoldable pub base_event :
    KeyLookup → AiProvider → Bytes → Option Bytes → Bool → ForwardResult → UsageEvent
base_event l provider model metadata down f = record {
  project_id = l.project_id;
  api_key_id = l.api_key_id;
  provider = provider;
  model = model;
  prompt_tokens = 0;
  completion_tokens = 0;
  cost_usd = none;
  duration_ms = f.duration_ms;
  status_code = f.status_code;
  metadata = metadata;
  fail_open = down;
}

module _ ⦃fl : FloatOps⦄ where
  with_cost : UsageEvent → Option ModelPricing → UsageEvent
  with_cost e none = e
  with_cost e (some p) = record e {
    cost_usd = some (calculate e.prompt_tokens e.completion_tokens p);
  }

module _ {W : Type 0} ⦃be : Backend W⦄ ⦃fl : FloatOps⦄ where
  -- `if fwdResult.Usage != nil { … }`
  unfoldable pub count_usage : Option Usage → UsageEvent → Handler W → UsageEvent × Handler W
  unfolding with_cost
  count_usage none e h = (e, h)
  count_usage (some u) e h =
      let (p, h') = lookup_pricing e.provider e.model h in
      (
        with_cost
            (record e { prompt_tokens = u.prompt_tokens; completion_tokens = u.completion_tokens })
            p,
        h',
      )

module _ {W : Type 0} ⦃be : Backend W⦄ where
  -- The direct write while Redis is down, whose error is only printed, or the channel.
  unfoldable pub log_event : Bool → UsageEvent → Handler W → Handler W
  log_event down e h =
      if down
      then with_budgets h (write_usage_event e (budgets_of h)).1
      else record h { logger = log h.logger e }

module _ {W : Type 0} ⦃be : Backend W⦄ ⦃fl : FloatOps⦄ where
  -- Behind `Forward`: an error ends the handler with what was written until then.
  unfoldable pub finish :
      KeyLookup
      → AiProvider
      → Bytes
      → Option Bytes
      → Bool
      → Option ForwardResult × Reply
      → Handler W
      → Reply × Handler W
  finish l provider model metadata down (none, reply) h = (reply, h)
  finish l provider model metadata down (some f, reply) h =
      let (e, h') = count_usage f.usage (base_event l provider model metadata down f) h in
      (reply, log_event down e h')

module _ {W : Type 0} ⦃be : Backend W⦄ ⦃fl : FloatOps⦄ ⦃lib : UuidLib⦄ ⦃crypto : CryptoLib⦄
    ⦃http : HttpLib W⦄ ⦃json : JsonLib⦄ ⦃rj : RequestJson⦄ where
  -- With a body: the request is forwarded.
  unfoldable pub serve_body :
      Request → KeyLookup → AiProvider → Bytes → Bool → Bytes → Handler W → Reply × Handler W
  serve_body r l provider suffix down body h =
      let (sent, w) =
        forward r body (provider_url provider) l.plain_key provider suffix (world_of h) in
      finish l provider (extract_model body) (parse_metadata (get_header r.header x_airelay_meta))
        down sent (with_world h w)

  unfoldable pub serve_read :
      Request → KeyLookup → AiProvider → Bytes → Bool → Body → Handler W → Reply × Handler W
  serve_read r l provider suffix down too_large h =
      (write_json 413 (codes "request body too large"), h)
  serve_read r l provider suffix down unreadable h =
      (write_json 400 (codes "could not read request body"), h)
  serve_read r l provider suffix down (read body) h = serve_body r l provider suffix down body h

  -- CheckBudgets never returns an error.
  unfoldable pub serve_checked :
      Request → Body → KeyLookup → AiProvider → Bytes → Handler W → Reply × Handler W
  serve_checked r body l provider suffix h =
      let (budget, s) = check_budgets l.project_id (budgets_of h) in
      if budget.blocked
      then (write_json 429 (codes "budget exceeded: " ++ budget.reason), with_budgets h s)
      else serve_read r l provider suffix budget.redis_down body (with_budgets h s)

  serve_resolved :
      Request → Body → AiProvider → Bytes → Option KeyLookup → Handler W → Reply × Handler W
  serve_resolved r body provider suffix none h =
      (write_json 401 (codes "invalid API key or no credential configured for provider"), h)
  serve_resolved r body provider suffix (some l) h = serve_checked r body l provider suffix h

  serve_provider :
      Bytes → Request → Body → Bytes → Option AiProvider → Bytes → Handler W → Reply × Handler W
  unfolding serve_resolved is_blank
  serve_provider enc_key r body slug none suffix h =
      (write_json 400 (codes "unknown provider: " ++ slug), h)
  serve_provider enc_key r body slug (some provider) suffix h =
      if is_blank (bearer_key r) || not (has_prefix (bearer_key r) key_prefix)
      then (write_json 401 (codes "missing or invalid AIRelay API key"), h)
      else (let (l, w) = resolve enc_key (bearer_key r) provider (world_of h) in
          serve_resolved r body provider suffix l (with_world h w))

  serve_path : Bytes → Request → Body → Option (Bytes × Bytes) → Handler W → Reply × Handler W
  unfolding serve_provider
  serve_path enc_key r body none h =
      (write_json 400 (codes "invalid proxy path: expected /proxy/{provider}/..."), h)
  serve_path enc_key r body (some (slug, suffix)) h =
      serve_provider enc_key r body slug (slug_to_provider slug) suffix h

  -- h.ServeHTTP(w, r)
  unfoldable pub serve_http : Bytes → Request → Body → Handler W → Reply × Handler W
  unfolding serve_path
  serve_http enc_key r body h = serve_path enc_key r body (split_path r.path) h
