-- ===== src/Jobs/PricingSync/Kept.antt =====
-- What the sync of the prices leaves alone.
use airelay.Base.{
  ℕ, suc, ◌≡◌, refl, ◌∙◌, true, not, ◌&&◌, ◌||◌, Option, none, some, List, [], ◌∷◌, Bytes, bytes_eq,
  Bool-cases, inl, inr,
}
use airelay.Float.{Float64, FloatOps}
use airelay.Time.{Time}
use airelay.Models.{ModelPricing}
use airelay.Jobs.PricingSync.{
  Table, LiteLlmEntry, OpenRouterModel, provider_and_model, lite_llm_row, open_router_row, change,
  lite_llm_entry, sync_lite_llm, open_router_entry, sync_open_router, open_router_step,
  run_pricing_sync, is_known_provider, free, lite_llm_costs, open_router_costs,
}

-- A statement that maps a row to itself leaves it.
change_keeps :
    (done : Option Time) (provider model p m : Bytes)
    (f : Time → Option ModelPricing → Option ModelPricing) (table : Table)
    → ((now : Time) → f now (table p m) ≡ table p m)
    → change done provider model f table p m ≡ table p m
unfolding change
change_keeps none provider model p m f table h = refl
change_keeps (some now) provider model p m f table h =
    elim (Bool-cases (bytes_eq p provider && bytes_eq m model)) [
      | inl e ↦ rw e (h now)
      | inr e ↦ rw e refl
    ]

lite_llm_row_manual :
    (provider model : Bytes) (costs : Float64 × Float64) (now : Time) (o : Option ModelPricing)
    (row : ModelPricing)
    → o ≡ some row
    → row.manual_override ≡ true
    → lite_llm_row provider model costs now o ≡ o
unfolding lite_llm_row
lite_llm_row_manual provider model costs now o row e h = rw (e, h) refl

open_router_row_keeps :
    (provider model : Bytes) (costs : Float64 × Float64) (now : Time) (o : Option ModelPricing)
    (row : ModelPricing)
    → o ≡ some row
    → open_router_row provider model costs now o ≡ o
unfolding open_router_row
open_router_row_keeps provider model costs now o row e = rw e refl

module _ ⦃fl : FloatOps⦄ where
  lite_llm_entry_manual :
      (done : Option Time) (model : Bytes) (x : LiteLlmEntry) (p m : Bytes) (row : ModelPricing)
      (table : Table)
      → table p m ≡ some row
      → row.manual_override ≡ true
      → lite_llm_entry done model x table p m ≡ some row
  unfolding lite_llm_entry
  lite_llm_entry_manual done model x p m row table e h =
      let name = x.lite_llm_provider in
      let costs = lite_llm_costs x in
      elim (Bool-cases
        (not (is_known_provider name) || free (x.input_cost_per_token, x.output_cost_per_token))) [
          | inl b ↦ rw b e
          | inr b ↦ rw b (
              change_keeps done name model p m (lite_llm_row name model costs) table
                (λ now. lite_llm_row_manual name model costs now (table p m) row e h)
              ∙ e)
        ]

  open_router_entry_keeps :
      (parse_float : Bytes → Float64) (done : Option Time) (x : OpenRouterModel) (p m : Bytes)
      (row : ModelPricing) (table : Table)
      → table p m ≡ some row
      → open_router_entry parse_float done x table p m ≡ some row
  unfolding open_router_entry
  open_router_entry_keeps parse_float done x p m row table e =
      let (provider, model) = provider_and_model x in
      let costs = open_router_costs parse_float x in
      elim (Bool-cases (not (is_known_provider provider) || (bytes_eq model [] || free costs))) [
        | inl b ↦ rw b e
        | inr b ↦ rw b (
            change_keeps done provider model p m (open_router_row provider model costs) table
              (λ now. open_router_row_keeps provider model costs now (table p m) row e)
            ∙ e)
      ]

  sync_lite_llm_manual :
      (done : ℕ → Option Time) (entries : List (Bytes × LiteLlmEntry)) (p m : Bytes)
      (row : ModelPricing) (table : Table)
      → table p m ≡ some row
      → row.manual_override ≡ true
      → sync_lite_llm done entries table p m ≡ some row
  unfolding sync_lite_llm
  sync_lite_llm_manual done [] p m row table e h = e
  sync_lite_llm_manual done ((model, x) ∷ rest) p m row table e h =
      sync_lite_llm_manual (λ n. done (suc n)) rest p m row (lite_llm_entry (done 0) model x table)
        (lite_llm_entry_manual (done 0) model x p m row table e h) h

  -- The second source changes no row that there is.
  sync_open_router_keeps :
      (parse_float : Bytes → Float64) (done : ℕ → Option Time) (models : List OpenRouterModel)
      (p m : Bytes) (row : ModelPricing) (table : Table)
      → table p m ≡ some row
      → sync_open_router parse_float done models table p m ≡ some row
  unfolding sync_open_router
  sync_open_router_keeps parse_float done [] p m row table e = e
  sync_open_router_keeps parse_float done (x ∷ rest) p m row table e =
      sync_open_router_keeps parse_float (λ n. done (suc n)) rest p m row
        (open_router_entry parse_float (done 0) x table)
        (open_router_entry_keeps parse_float (done 0) x p m row table e)

  -- A price that is set by hand stays as it is through every sync, whatever the two lists hold and
  -- whichever statements fail.
  pub run_pricing_sync_manual :
      (parse_float : Bytes → Float64) (done done' : ℕ → Option Time)
      (entries : Option (List (Bytes × LiteLlmEntry))) (models : Option (List OpenRouterModel))
      (table : Table) (p m : Bytes) (row : ModelPricing)
      → table p m ≡ some row
      → row.manual_override ≡ true
      → (run_pricing_sync parse_float done done' entries models table).1 p m ≡ some row
  unfolding run_pricing_sync open_router_step
  run_pricing_sync_manual parse_float done done' none models table p m row e h = e
  run_pricing_sync_manual parse_float done done' (some entries) none table p m row e h =
      sync_lite_llm_manual done entries p m row table e h
  run_pricing_sync_manual parse_float done done' (some entries) (some models) table p m row e h =
      sync_open_router_keeps parse_float done' models p m row (sync_lite_llm done entries table)
        (sync_lite_llm_manual done entries p m row table e h)

  -- A row that the first source leaves behind is not changed by the second: its prices win.
  pub run_pricing_sync_first :
      (parse_float : Bytes → Float64) (done done' : ℕ → Option Time)
      (entries : List (Bytes × LiteLlmEntry)) (models : Option (List OpenRouterModel))
      (table : Table) (p m : Bytes) (row : ModelPricing)
      → sync_lite_llm done entries table p m ≡ some row
      → (run_pricing_sync parse_float done done' (some entries) models table).1 p m ≡ some row
  unfolding run_pricing_sync open_router_step
  run_pricing_sync_first parse_float done done' entries none table p m row e = e
  run_pricing_sync_first parse_float done done' entries (some models) table p m row e =
      sync_open_router_keeps parse_float done' models p m row (sync_lite_llm done entries table) e
