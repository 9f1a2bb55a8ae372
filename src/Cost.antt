-- ===== src/Cost.antt =====
-- internal/cost/cost.go.
use airelay.Base.{ℕ}
use airelay.Float.{Float64, FloatOps}
use airelay.Models.{ModelPricing}

module _ ⦃fl : FloatOps⦄ where
  -- float64(tokens) / 1000.0 * cost
  cost_of : ℕ → Float64 → Float64
  cost_of tokens cost_per_1k = fl.mul (fl.div (fl.literal tokens 1) (fl.literal 1000 1)) cost_per_1k

  unfoldable pub calculate : ℕ → ℕ → ModelPricing → Float64
  unfolding cost_of
  calculate prompt completion pricing =
      fl.add (cost_of prompt pricing.input_cost_per_1k)
        (cost_of completion pricing.output_cost_per_1k)
