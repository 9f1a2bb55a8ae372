-- ===== src/Jobs/Reconcile/Corrects.antt =====
-- One counter and its correction.
pub mod Whole
use airelay.Base.{
  ℕ, ◌^◌, ◌<◌, ◌≡◌, ◌≢◌, refl, sym, ap, ◌∙◌, ◌⊎◌, inl, inr, Bool, true, false, Option, none, some,
  List, [], ◌∷◌, Bytes, bytes_eq, bytes_eq_iff, bytes_eq_refl, ◌==◌, ==_iff, All, if◌then◌else◌,
  Bool-cases, Option-cases, arith,
}
use airelay.Float.{Float64, FloatOps}
use airelay.Time.{Time, IsTime, date}
use airelay.Uuid.{Uuid, UuidLib}
use airelay.Budget.{spend_key, spend_key_ttl, daily, monthly}
use airelay.Budget.Keys.{Window, by_day, by_month, window_name, spend_key-injective}
use airelay.Proxy.Backend.{Backend, Get, found, nil, failed}
use airelay.Proxy.Budgets.Quiet.{SameDay, IsSame, IsQuiet, spend_key_same, Get-cases}
use airelay.Proxy.Budgets.Quiet.Decides.{IsSame-trans}
use airelay.Jobs.Reconcile.{
  drifted, or_zero, correct, reconcile_read, reconcile_period, reconcile_projects, run_reconcile,
}

-- What a counter is to be, by the sum of its period in Postgres: the sum, where that is not 0 and the
-- counter is there and has drifted from it.
abbrev pub corrected : ⦃fl : FloatOps⦄ → Float64 → Get Float64 → Get Float64
corrected sum nil = nil
corrected sum failed = failed
corrected ⦃fl⦄ sum (found v) =
    if fl.eq sum (fl.literal 0 1) then found v else if drifted v sum then found sum else found v

-- The first instant of a day or a month.
abbrev pub first_instant : Window → Time → ℕ
first_instant by_day t = date t.year t.month t.day
first_instant by_month t = date t.year t.month 1

abbrev pub Distinct : List Uuid → Type 0
Distinct [] = Unit {0}
Distinct (p ∷ ps) = All (λ q. (q == p) ≡ false) ps × Distinct ps

module _ {W : Type 0} ⦃be : Backend W⦄ ⦃fl : FloatOps⦄ where
  abbrev pub counter : Bytes → W → Get Float64
  counter k w = (be.redis_get_float k w).0

  -- The sum that the job works with: 0 for an error of the query.
  abbrev pub sum_for : Uuid → ℕ → W → Float64
  sum_for p start w = or_zero (fl.literal 0 1) (be.db_spend_since p start w).0

  -- `w'` has one counter corrected, and the sums of `w`.
  pub record IsCorrected (key : Bytes) (sum : Float64) (w w' : W) : Type 0 where
    pub counters :
        (k : Bytes)
        → counter k w' ≡ (if bytes_eq k key then corrected sum (counter key w) else counter k w)
    pub sums : (p : Uuid) (a : ℕ) → (be.db_spend_since p a w').0 ≡ (be.db_spend_since p a w).0

  module _ (t : Time) (quiet : IsQuiet be t) where
    unchanged :
        (key : Bytes) (sum : Float64) (w w' : W)
        → IsSame be w w'
        → corrected sum (counter key w) ≡ counter key w
        → IsCorrected key sum w w'
    unchanged key sum w w' same fixed = record {
      counters = λ k. elim (Bool-cases (bytes_eq k key)) [
        | inl e ↦ rw (e, fixed, (bytes_eq_iff k key).0 e) (same.counters key)
        | inr e ↦ rw e (same.counters k)
      ];
      sums = same.sums;
    }

    replaced :
        (key : Bytes) (sum : Float64) (d : ℕ) (w w' : W)
        → IsSame be w w'
        → corrected sum (counter key w) ≡ found sum
        → IsCorrected key sum w (be.redis_set_float key sum d w')
    replaced key sum d w w' same is = record {
      counters = λ k. elim (Bool-cases (bytes_eq k key)) [
        | inl e ↦ rw (quiet.set_writes key k sum d w', e, is) refl
        | inr e ↦ rw (quiet.set_writes key k sum d w', e) (same.counters k)
      ];
      sums = λ p a. quiet.set_keeps_sums key sum d w' p a ∙ same.sums p a;
    }

    module _ ⦃lib : UuidLib⦄ where
      pub reconcile_period-IsCorrected :
          (p : Uuid) (period : Bytes) (start : ℕ) (now : Time) (w : W)
          → SameDay now t
          → IsCorrected
              (spend_key p period t)
              (sum_for p start w)
              w
              (reconcile_period p period start now w)
      unfolding reconcile_period reconcile_read correct
      reconcile_period-IsCorrected p period start now w day =
          let key = spend_key p period t in
          let (val, w₁) = be.redis_get_float key w in
          let (got, w₂) = be.db_spend_since p start w₁ in
          let sum = sum_for p start w in
          let same₁ = quiet.get_reads key w in
          let same₂ = IsSame-trans w w₁ w₂ same₁ (quiet.sum_reads p start w₁) in
          elim (Get-cases (counter key w)) [
            | inr (inl e) ↦
                rw (spend_key_same p period now t day, e) (unchanged key sum w w₁ same₁ (rw e refl))
            | inr (inr e) ↦
                rw (spend_key_same p period now t day, e) (unchanged key sum w w₁ same₁ (rw e refl))
            | inl (v, e) ↦ elim (Bool-cases (fl.eq sum (fl.literal 0 1))) [
              | inl z ↦
                  rw (spend_key_same p period now t day, e, same₁.sums p start, z)
                    (unchanged key sum w w₂ same₂ (rw (e, z) refl))
              | inr z ↦ elim (Bool-cases (drifted v sum)) [
                | inl d ↦
                    rw (spend_key_same p period now t day, e, same₁.sums p start, z, d)
                      (replaced key sum (spend_key_ttl period now) w w₂ same₂ (rw (e, z, d) refl))
                | inr d ↦
                    rw (spend_key_same p period now t day, e, same₁.sums p start, z, d)
                      (unchanged key sum w w₂ same₂ (rw (e, z, d) refl))
              ]
            ]
          ]
