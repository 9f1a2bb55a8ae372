-- ===== src/Proxy/Budgets/Spend.antt =====
-- What the spend counters read, and what a recorded cost does to them.
use airelay.Base.{ℕ, ◌+◌, ◌<◌, ◌≤◌, ◌≡◌, refl, none, some, arith, Bytes}
use airelay.Float.{Float64}
use airelay.Time.{Time, IsTime, instant, date, day_nanos}
use airelay.Time.Calendar.{date_offset, date-month_after}
use airelay.Uuid.{Uuid}
use airelay.Models.{BudgetPeriod, period_daily, period_monthly}
use airelay.Budget.{spend_key_ttl}
use airelay.Proxy.Backend.{Backend, found, nil, failed}
use airelay.Proxy.Budgets.{
  State, get_spend, period_start, rebuild_from_db, spend_of_get, keep_rebuilt, sum_since,
}

-- The sum behind a lost counter starts with the day or the month of the clock's reading: the
-- reading lies behind the start and before the start of the next day or month.
pub period_start_bounds :
    (t : Time)
    → IsTime t
    → ((a : ℕ) × (period_start period_daily t ≡ some a)
        × (a ≤ instant t)
        × (instant t < a + day_nanos))
      × ((a : ℕ) × (period_start period_monthly t ≡ some a)
          × (a ≤ instant t)
          × (instant t < date t.year (t.month + 1) 1))
unfolding period_start instant
period_start_bounds t h =
    let a = date_offset t.year t.month t.day h.day_pos in
    let b = date-month_after t.year t.month 1 h.month_pos h.month_le in
    (
      (date t.year t.month t.day, refl, omega arith, omega arith),
      (date t.year t.month 1, refl, omega arith, omega arith),
    )

module _ {W : Type 0} ⦃be : Backend W⦄ where
  -- A counter that Redis holds is read as it is and one that Redis cannot read is an error, both
  -- with no query.
  pub get_spend_hit :
      (key : Bytes) (project : Uuid) (period : BudgetPeriod) (s : State W)
      → let (val, w) = be.redis_get_float key s.world in
        let s' = record s { world = w } in
        ((v : Float64) → val ≡ found v → get_spend key project period s ≡ (some v, s'))
        × (val ≡ failed → get_spend key project period s ≡ (none, s'))
  unfolding get_spend
  get_spend_hit key project period s = (λ v e. rw (e, spend_of_get), λ e. rw (e, spend_of_get))

  -- A missing counter is rebuilt: the result is the sum of the costs since the start of the period
  -- that the clock then shows, and the counter is set to it with the time to live of its period.
  pub get_spend_rebuilds :
      (key : Bytes) (project : Uuid) (period : BudgetPeriod) (s : State W) (start : ℕ) (v : Float64)
      → (be.redis_get_float key s.world).0 ≡ nil
      → let (now, w₁) = be.now (be.redis_get_float key s.world).1 in
        let (sum, w₂) = be.db_spend_since project start w₁ in
        let (now', w₃) = be.now w₂ in
        period_start period now ≡ some start
        → sum ≡ some v
        → get_spend key project period s
          ≡ (some v, record s { world = be.redis_set_float key v (spend_key_ttl period now') w₃ })
  unfolding get_spend rebuild_from_db
  get_spend_rebuilds key project period s start v e f g =
      rw (e, spend_of_get, f, sum_since, g, keep_rebuilt)
