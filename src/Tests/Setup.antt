-- ===== src/Tests/Setup.antt =====
-- The theorems on the prices and the configuration, at concrete inputs.
use airelay.Base.{
  ℕ, ◌≤◌, arith, ◌≡◌, ◌↔◌, refl, true, Option, none, some, [], ◌∷◌, codes, bytes_eq, if◌then◌else◌,
}
use airelay.Time.{Time, days_in}
use airelay.Models.{ModelPricing}
use airelay.Jobs.PricingSync.{Table, LiteLlmEntry, OpenRouterModel, sync_lite_llm, run_pricing_sync}
use airelay.Jobs.PricingSync.Kept.{run_pricing_sync_manual}
use airelay.Jobs.Partition.{ensure_partition, add_month, month_after, run_partition_joins}
use airelay.Tests.{noon-IsTime, noon, four, toy_float}

abbrev by_hand : ModelPricing
by_hand = record {
  provider = codes "openai";
  model = codes "gpt-4o";
  input_cost_per_1k = 1;
  output_cost_per_1k = 2;
  synced_from = codes "manual";
  manual_override = true;
  last_synced_at = noon;
}

abbrev prices : Table
prices p m = if bytes_eq m (codes "gpt-4o") then some by_hand else none

abbrev entry : LiteLlmEntry
entry = record {
  input_cost_per_token = 3;
  output_cost_per_token = 4;
  lite_llm_provider = codes "openai";
}

abbrev routed : OpenRouterModel
routed = record { id = codes "openai/gpt-4o"; prompt = codes "5"; completion = codes "6" }

abbrev works : ℕ → Option Time
works _ = some noon

run_pricing_sync_manual_example :
    (run_pricing_sync
        (λ s. four)
        works
        works
        (some ((codes "gpt-4o", entry) ∷ []))
        (some (routed ∷ []))
        prices).1
      (codes "openai")
      (codes "gpt-4o")
    ≡ some by_hand
run_pricing_sync_manual_example =
    run_pricing_sync_manual (λ s. four) works works (some ((codes "gpt-4o", entry) ∷ []))
      (some (routed ∷ [])) prices (codes "openai") (codes "gpt-4o") by_hand refl refl

synced : sync_lite_llm works [] prices (codes "openai") (codes "gpt-4o") ≡ some by_hand
unfolding sync_lite_llm
synced = refl

-- The next month of January 2024 has 29 days, and the clock shows the 31st.
run_partition_joins_example :
    ((ensure_partition noon).to ≡ (ensure_partition (add_month noon)).from) ↔ (31 ≤ days_in 2024 1)
unfolding month_after
run_partition_joins_example = run_partition_joins noon noon-IsTime (ground arith)
