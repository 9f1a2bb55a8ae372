-- ===== src/Jobs/PricingSync.antt =====
-- internal/jobs/pricingsync.go: the merge of the two price lists into the table model_pricing. The
-- table is a map by provider and model, on which the two INSERT statements act as they are written.
-- The fetched lists are arguments, and a statement gives its time or, as `none`, an error.
pub mod Kept
use airelay.Base.{
  ℕ, zero, suc, ◌≡◌, refl, ap, sym, ◌∙◌, Bool, true, false, not, ◌&&◌, ◌||◌, Option, none, some,
  List, [], ◌∷◌, Bytes, codes, bytes_eq, split_n, Bool-cases, inl, inr, if◌then◌else◌,
}
use airelay.Float.{Float64, FloatOps}
use airelay.Time.{Time}
use airelay.Models.{ModelPricing}

abbrev pub Table : Type 0
Table = Bytes → Bytes → Option ModelPricing

pub record LiteLlmEntry : Type 0 where
  pub input_cost_per_token : Float64
  pub output_cost_per_token : Float64
  pub lite_llm_provider : Bytes

-- OpenRouterModel, with the two texts of its Pricing.
pub record OpenRouterModel : Type 0 where
  pub id : Bytes
  pub prompt : Bytes
  pub completion : Bytes

unfoldable pub is_known_provider : Bytes → Bool
is_known_provider provider =
    bytes_eq provider (codes "openai")
    || (bytes_eq provider (codes "anthropic") || bytes_eq provider (codes "google"))

id_parts : Bytes → List Bytes → Bytes × Bytes
id_parts id (provider ∷ model ∷ []) = (provider, model)
id_parts id _ = ([], id)

-- m.ProviderAndModel()
unfoldable pub provider_and_model : OpenRouterModel → Bytes × Bytes
unfolding id_parts
provider_and_model m = id_parts m.id (split_n 2 b'/' m.id)

-- A row as the INSERT makes it; the column manual_override defaults to false.
new_row : Bytes → Bytes → Bytes → Float64 × Float64 → Time → ModelPricing
new_row source provider model (input, output) now = record {
  provider = provider;
  model = model;
  input_cost_per_1k = input;
  output_cost_per_1k = output;
  synced_from = source;
  manual_override = false;
  last_synced_at = now;
}

-- ON CONFLICT … DO UPDATE … WHERE model_pricing.manual_override = false
lite_llm_row : Bytes → Bytes → Float64 × Float64 → Time → Option ModelPricing → Option ModelPricing
unfolding new_row
lite_llm_row provider model costs now none =
    some (new_row (codes "litellm") provider model costs now)
lite_llm_row provider model costs now (some row) =
    if row.manual_override
    then some row
    else some (record row {
      input_cost_per_1k = costs.0;
      output_cost_per_1k = costs.1;
      synced_from = codes "litellm";
      last_synced_at = now;
    })

-- ON CONFLICT … DO NOTHING
open_router_row :
    Bytes → Bytes → Float64 × Float64 → Time → Option ModelPricing → Option ModelPricing
unfolding new_row
open_router_row provider model costs now none =
    some (new_row (codes "openrouter") provider model costs now)
open_router_row provider model costs now (some row) = some row

-- A statement on the row of a provider and a model.
change :
    Option Time → Bytes → Bytes → (Time → Option ModelPricing → Option ModelPricing) → Table → Table
change none provider model f table = table
change (some now) provider model f table =
    λ p m. if bytes_eq p provider && bytes_eq m model then f now (table p m) else table p m

-- Whether an entry is written: a known provider, a model, and a cost that is not 0.
module _ ⦃fl : FloatOps⦄ where
  free : Float64 × Float64 → Bool
  free (input, output) = fl.eq input (fl.literal 0 1) && fl.eq output (fl.literal 0 1)

  per_1k : Float64 → Float64
  per_1k f = fl.mul f (fl.literal 1000 1)

  -- e.Per1kCosts()
  lite_llm_costs : LiteLlmEntry → Float64 × Float64
  unfolding per_1k
  lite_llm_costs e = (per_1k e.input_cost_per_token, per_1k e.output_cost_per_token)

  -- m.Per1kCosts(). `parse_float` is strconv.ParseFloat, whose error the program ignores.
  open_router_costs : (Bytes → Float64) → OpenRouterModel → Float64 × Float64
  unfolding per_1k
  open_router_costs parse_float m =
      (per_1k (parse_float m.prompt), per_1k (parse_float m.completion))

  unfoldable pub lite_llm_entry : Option Time → Bytes → LiteLlmEntry → Table → Table
  unfolding free lite_llm_costs change lite_llm_row
  lite_llm_entry done model e table =
      if not (is_known_provider e.lite_llm_provider)
        || free (e.input_cost_per_token, e.output_cost_per_token)
      then table
      else change done e.lite_llm_provider model
          (lite_llm_row e.lite_llm_provider model (lite_llm_costs e)) table

  -- The loop over the map, in the order in which Go ranges over it.
  unfoldable pub sync_lite_llm : (ℕ → Option Time) → List (Bytes × LiteLlmEntry) → Table → Table
  sync_lite_llm done [] table = table
  sync_lite_llm done ((model, e) ∷ rest) table =
      sync_lite_llm (λ n. done (suc n)) rest (lite_llm_entry (done 0) model e table)

  unfoldable pub open_router_entry :
      (Bytes → Float64) → Option Time → OpenRouterModel → Table → Table
  unfolding free open_router_costs change open_router_row
  open_router_entry parse_float done m table =
      let (provider, model) = provider_and_model m in
      let costs = open_router_costs parse_float m in
      if not (is_known_provider provider) || (bytes_eq model [] || free costs)
      then table
      else change done provider model (open_router_row provider model costs) table

  unfoldable pub sync_open_router :
      (Bytes → Float64) → (ℕ → Option Time) → List OpenRouterModel → Table → Table
  sync_open_router parse_float done [] table = table
  sync_open_router parse_float done (m ∷ rest) table =
      sync_open_router parse_float (λ n. done (suc n)) rest
        (open_router_entry parse_float (done 0) m table)

  open_router_step :
      (Bytes → Float64) → (ℕ → Option Time) → Option (List OpenRouterModel) → Table → Table
  open_router_step parse_float done none table = table
  open_router_step parse_float done (some models) table =
      sync_open_router parse_float done models table

  -- RunPricingSync: whether it returned no error, and the table. `none` is a fetch or a decoding
  -- that failed.
  unfoldable pub run_pricing_sync :
      (Bytes → Float64)
      → (ℕ → Option Time)
      → (ℕ → Option Time)
      → Option (List (Bytes × LiteLlmEntry))
      → Option (List OpenRouterModel)
      → Table
      → Bool × Table
  unfolding open_router_step
  run_pricing_sync parse_float done done' none models table = (false, table)
  run_pricing_sync parse_float done done' (some entries) models table =
      (true, open_router_step parse_float done' models (sync_lite_llm done entries table))
