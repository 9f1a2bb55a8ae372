-- ===== src/Proxy/Handler.antt =====
-- proxy/handler.go: the handler of the proxied requests. The state is the logger, which holds the
-- budget checker and the world, and the in-process cache of prices.
use airelay.Base.{
  ℕ, ◌+◌, ◌*◌, Bool, true, false, Option, none, some, List, [], ◌∷◌, ◌++◌, Bytes, codes, bytes_eq,
  trim_prefix, split_n, ltb, if◌then◌else◌,
}
use airelay.Float.{Float64}
use airelay.Time.{Time, instant, hour}
use airelay.Models.{
  AiProvider, provider_openai, provider_anthropic, provider_google, ModelPricing, zero_time,
}
use airelay.Proxy.Backend.{Backend}
use airelay.Proxy.Budgets.{State}
use airelay.Proxy.Logger.{Logger}
use airelay.Proxy.Forward.{Request, Reply, authorization, get_header}

pub record CachedPricing : Type 0 where
  pub pricing : Option ModelPricing
  pub expires_at : ℕ  -- an instant

abbrev pub PricingCache : Type 0
PricingCache = Bytes → Option CachedPricing

pub record Handler (W : Type 0) : Type 0 where
  pub logger : Logger W
  pub pricing_cache : PricingCache

-- The body of a request, as http.MaxBytesReader and io.ReadAll give it.
pub data Body : Type 0 where
  read : Bytes → Body
  too_large unreadable : Body

-- The decoding of a request: json.Unmarshal of the model, "" without one, and of the metadata.
pub record RequestJson : Type 0 where
  pub model_of : Bytes → Bytes
  pub metadata_of : Bytes → Option Bytes
  -- json.NewEncoder(w).Encode(map[string]string{"error": msg})
  pub error_body : Bytes → Bytes

unfoldable pub slug_to_provider : Bytes → Option AiProvider
slug_to_provider slug =
    if bytes_eq slug (codes "openai")
    then some provider_openai
    else if bytes_eq slug (codes "anthropic")
    then some provider_anthropic
    else if bytes_eq slug (codes "google")
    then some provider_google
    else none

-- A path that the handler takes: the provider's slug and what is behind it, with its slash.
unfoldable pub two_parts : List Bytes → Option (Bytes × Bytes)
two_parts (slug ∷ (c ∷ rest) ∷ []) = some (slug, b'/' ∷ c ∷ rest)
two_parts _ = none

unfoldable pub split_path : Bytes → Option (Bytes × Bytes)
unfolding two_parts
split_path path = two_parts (split_n 2 b'/' (trim_prefix path (codes "/proxy/")))

unfoldable pub is_blank : Bytes → Bool
is_blank [] = true
is_blank (_ ∷ _) = false

unfoldable pub bearer_key : Request → Bytes
bearer_key r = trim_prefix (get_header r.header authorization) (codes "Bearer ")

abbrev pub pricing_cache_ttl : ℕ
pricing_cache_ttl = 24 * hour

module _ ⦃rj : RequestJson⦄ where
  unfoldable pub write_json : ℕ → Bytes → Reply
  write_json code msg = record {
    status = some code;
    header = λ k. if bytes_eq k (codes "Content-Type") then codes "application/json" ∷ [] else [];
    body = rj.error_body msg;
  }

  unfoldable pub extract_model : Bytes → Bytes
  unfolding is_blank
  extract_model body = if is_blank (rj.model_of body) then codes "unknown" else rj.model_of body

  unfoldable pub parse_metadata : Bytes → Option Bytes
  unfolding is_blank
  parse_metadata header = if is_blank header then none else rj.metadata_of header

module _ {W : Type 0} where
  -- The budget checker's state, and the world, inside of the handler.
  abbrev pub budgets_of : Handler W → State W
  budgets_of h = h.logger.budgets

  abbrev pub with_budgets : Handler W → State W → Handler W
  with_budgets h s = record h { logger = record h.logger { budgets = s } }

  abbrev pub world_of : Handler W → W
  world_of h = h.logger.budgets.world

  abbrev pub with_world : Handler W → W → Handler W
  with_world h w = with_budgets h (record h.logger.budgets { world = w })

  unfoldable pub store_pricing : Bytes → Option ModelPricing → Time → Handler W → Handler W
  store_pricing key p now h = record h {
    pricing_cache = λ k.
        if bytes_eq k key
        then some (record { pricing = p; expires_at = instant now + pricing_cache_ttl })
        else h.pricing_cache k;
  }

-- The row of the query; its other fields have their zero values.
priced : Bytes → Bytes → Option (Float64 × Float64) → Option ModelPricing
priced provider model none = none
priced provider model (some (input, output)) = some (record {
  provider = provider;
  model = model;
  input_cost_per_1k = input;
  output_cost_per_1k = output;
  synced_from = [];
  manual_override = false;
  last_synced_at = zero_time;
})

module _ {W : Type 0} ⦃be : Backend W⦄ where
  unfoldable pub query_pricing : Bytes → Bytes → Handler W → Option ModelPricing × Handler W
  unfolding priced store_pricing
  query_pricing provider model h =
      let (row, w₁) = be.db_pricing provider model (world_of h) in
      let (now, w₂) = be.now w₁ in
      let p = priced provider model row in
      (p, store_pricing (provider ++ b':' ∷ model) p now (with_world h w₂))

  unfoldable pub pricing_cached :
      Bytes → Bytes → Option CachedPricing → Handler W → Option ModelPricing × Handler W
  pricing_cached provider model none h = query_pricing provider model h
  pricing_cached provider model (some c) h =
      let (now, w) = be.now (world_of h) in
      if ltb (instant now) c.expires_at
      then (c.pricing, with_world h w)
      else query_pricing provider model (with_world h w)

  unfoldable pub lookup_pricing : Bytes → Bytes → Handler W → Option ModelPricing × Handler W
  unfolding pricing_cached
  lookup_pricing provider model h =
      pricing_cached provider model (h.pricing_cache (provider ++ b':' ∷ model)) h
