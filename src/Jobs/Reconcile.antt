-- ===== src/Jobs/Reconcile.antt =====
-- internal/jobs/reconcile.go: the correction of the spend counters.
pub mod Corrects
use airelay.Base.{
  ℕ, ◌≡◌, refl, Bool, true, false, Option, none, some, List, [], ◌∷◌, Bytes, if◌then◌else◌,
}
use airelay.Float.{Float64, FloatOps}
use airelay.Time.{Time, date}
use airelay.Uuid.{Uuid, UuidLib}
use airelay.Budget.{daily, monthly, spend_key, spend_key_ttl}
use airelay.Proxy.Backend.{Backend, Get, found, nil, failed}

module _ ⦃fl : FloatOps⦄ where
  -- abs(f)
  magnitude : Float64 → Float64
  magnitude f = if fl.lt f (fl.literal 0 1) then fl.neg f else f

  -- driftFraction(redis, db)
  unfoldable pub drift_fraction : Float64 → Float64 → Float64
  unfolding magnitude
  drift_fraction redis db =
      if fl.eq db (fl.literal 0 1) then fl.literal 0 1 else magnitude (fl.div (fl.sub redis db) db)

  -- drift > 0.05
  unfoldable pub drifted : Float64 → Float64 → Bool
  drifted redis db = fl.lt (fl.literal 5 100) (drift_fraction redis db)

-- An error of the query leaves the sum at 0.
abbrev pub or_zero : Float64 → Option Float64 → Float64
or_zero zero_sum none = zero_sum
or_zero zero_sum (some v) = v

module _ {W : Type 0} ⦃be : Backend W⦄ ⦃fl : FloatOps⦄ where
  correct : Bytes → Bytes → Time → Float64 → Float64 → W → W
  correct key period now redis db w =
      if fl.eq db (fl.literal 0 1)
      then w
      else if drifted redis db
      then be.redis_set_float key db (spend_key_ttl period now) w
      else w

  reconcile_read : Bytes → Uuid → Bytes → ℕ → Time → Get Float64 → W → W
  unfolding correct
  reconcile_read key project period start now (found v) w =
      let (sum, w') = be.db_spend_since project start w in
      correct key period now v (or_zero (fl.literal 0 1) sum) w'
  reconcile_read key project period start now nil w = w
  reconcile_read key project period start now failed w = w

  module _ ⦃lib : UuidLib⦄ where
    -- The inner loop's body, for one project and period.
    unfoldable pub reconcile_period : Uuid → Bytes → ℕ → Time → W → W
    unfolding reconcile_read
    reconcile_period project period start now w =
        let (val, w') = be.redis_get_float (spend_key project period now) w in
        reconcile_read (spend_key project period now) project period start now val w'

    unfoldable pub reconcile_projects : List Uuid → Time → W → W
    reconcile_projects [] now w = w
    reconcile_projects (project ∷ rest) now w =
        let w₁ = reconcile_period project daily (date now.year now.month now.day) now w in
        let w₂ = reconcile_period project monthly (date now.year now.month 1) now w₁ in
        reconcile_projects rest now w₂

    -- RunReconcile. `projects` is the query of the projects that are not archived, less the rows
    -- that its scan refuses; `none` is its error.
    unfoldable pub run_reconcile : (W → Option (List Uuid) × W) → W → W
    run_reconcile projects w =
        let (ids, w₁) = projects w in
        elim ids [
          | none ↦ w₁
          | some ps ↦ (let (now, w₂) = be.now w₁ in reconcile_projects ps now w₂)
        ]

    -- A counter that Redis has, with a sum that is not 0, is set to the sum exactly where it has
    -- drifted from it by more than the fraction 0.05, and lives as long as a new counter of the
    -- period; otherwise nothing is written. A missing counter stays missing and is not summed.
    pub reconcile_period_lem :
        (project : Uuid) (period : Bytes) (start : ℕ) (now : Time) (v sum : Float64) (w : W)
        → let key = spend_key project period now in
          let (val, w₁) = be.redis_get_float key w in
          let (answer, w₂) = be.db_spend_since project start w₁ in
          let w' = reconcile_period project period start now w in
          (val ≡ nil → w' ≡ w₁)
          × (val ≡ found v
              → answer ≡ some sum
              → fl.eq sum (fl.literal 0 1) ≡ false
              → (drifted v sum ≡ true
                  → w' ≡ be.redis_set_float key sum (spend_key_ttl period now) w₂)
                × (drifted v sum ≡ false → w' ≡ w₂))
          × (val ≡ found v
              → answer ≡ none
              → fl.eq (fl.literal 0 1) (fl.literal 0 1) ≡ true
              → w' ≡ w₂)
    unfolding reconcile_period
    reconcile_period_lem project period start now v sum w = (
      λ e. rw (e, reconcile_read) refl,
      λ e a z. (
        λ d. rw (e, reconcile_read, a, correct, z, d) refl,
        λ d. rw (e, reconcile_read, a, correct, z, d) refl,
      ),
      λ e a z. rw (e, reconcile_read, a, correct, z) refl,
    )
