-- ===== src/Float.antt =====
-- Go's float64. A value is its bit pattern, and the hardware's operations are a parameter: what a
-- theorem needs of them it names as a hypothesis.
use airelay.Base.{ℕ, Bool, Bytes}

abbrev pub Float64 : Type 0
Float64 = ℕ

pub record FloatOps : Type 0 where
  -- the constant `n / d` of the source, rounded; `literal n 1` is also the conversion from int
  pub literal : ℕ → ℕ → Float64
  pub add : Float64 → Float64 → Float64
  pub sub : Float64 → Float64 → Float64
  pub mul : Float64 → Float64 → Float64
  pub div : Float64 → Float64 → Float64
  pub neg : Float64 → Float64
  -- a < b, a <= b and a == b of the language; each is false at a NaN
  pub lt : Float64 → Float64 → Bool
  pub le : Float64 → Float64 → Bool
  pub eq : Float64 → Float64 → Bool
  -- fmt's %.4f
  pub format_4 : Float64 → Bytes
