-- ===== src/Time/Calendar.antt =====
-- Facts about dates: months follow one another without a gap, and a format fixes its date.
use airelay.Base.{
  ℕ, zero, suc, ◌+◌, ◌-◌, ◌*◌, ◌/◌, ◌%◌, ◌≤◌, ◌<◌, ◌≡◌, refl, arith, ◌∷◌, [], List, length, All,
  dec_lt,
}
use airelay.Time.{
  common_days, months, day_nanos, days_in, days_before, days_before_year, date, is_leap,
}

-- A year has the days of its twelve months.
pub year_step : (y : ℕ) → days_before_year (suc y) ≡ days_before_year y + days_before y 12
unfolding days_before_year days_before
year_step y = ground arith

common_days-le : (m : ℕ) (ds : List ℕ) → All (λ d. d ≤ 31) ds → common_days m ds ≤ 31
common_days-le m [] h = omega arith
common_days-le zero (d ∷ ds) h = h.0
common_days-le (suc m) (d ∷ ds) h = common_days-le m ds h.1

common_days-ge :
    (m : ℕ) (ds : List ℕ) → m < length ds → All (λ d. 28 ≤ d) ds → 28 ≤ common_days m ds
common_days-ge m [] l h = absurd (omega arith)
common_days-ge zero (d ∷ ds) l h = h.0
common_days-ge (suc m) (d ∷ ds) l h = common_days-ge m ds (omega arith) h.1

pub days_in-le : (y m : ℕ) → days_in y m ≤ 31
unfolding days_in
days_in-le y m = common_days-le m (months (is_leap y)) (ground arith)

pub days_in-ge : (y m : ℕ) → m < 12 → 28 ≤ days_in y m
unfolding days_in
days_in-ge y m h = common_days-ge m (months (is_leap y)) (omega arith) (ground arith)

date_parts :
    (y m d a b : ℕ)
    → y + (m - 1) / 12 ≡ a
    → (m - 1) % 12 ≡ b
    → date y m d ≡ (days_before_year a + days_before a b + (d - 1)) * day_nanos
unfolding date
date_parts y m d a b p q = rw (p, q)

-- A date within the year.
pub date_within :
    (y k d : ℕ)
    → k < 12
    → date y (suc k) d ≡ (days_before_year y + days_before y k + (d - 1)) * day_nanos
date_within y k d h = date_parts y (suc k) d y k (omega arith) (omega arith)

-- December runs into January.
date_over :
    (y d : ℕ)
    → date y 13 d ≡ (days_before_year (suc y) + days_before (suc y) 0 + (d - 1)) * day_nanos
date_over y d = date_parts y 13 d (suc y) 0 (omega arith) (omega arith)

days_before-suc : (y k : ℕ) → days_before y (suc k) ≡ days_before y k + days_in y k
unfolding days_before
days_before-suc y k = refl

days_before-zero : (y : ℕ) → days_before y 0 ≡ 0
unfolding days_before
days_before-zero y = refl

-- A day of the next month is so many days behind the first of this one.
pub date-next_month :
    (y k d : ℕ)
    → k < 12
    → date y (suc k + 1) d ≡ date y (suc k) 1 + (days_in y k + (d - 1)) * day_nanos
date-next_month y k d h = elim (dec_lt k 11) [
  | yes p ↦
      let e : suc k + 1 ≡ suc (suc k) = omega arith in
      rw e (
        omega
          (arith, date_within y (suc k) d (omega arith), date_within y k 1 h, days_before-suc y k))
  | no p ↦
      let e : k ≡ 11 = omega arith in
      rw e (
        omega (
          arith,
          date_over y d,
          date_within y 11 1 (omega arith),
          days_before-suc y 11,
          days_before-zero (suc y),
          year_step y,
        ))
]

-- A day is so many days behind the first of its month.
pub date_offset : (y m d : ℕ) → 1 ≤ d → date y m d ≡ date y m 1 + (d - 1) * day_nanos
unfolding date
date_offset y m d h = omega arith

-- The same for a month as a civil reading numbers it.
pub date-month_after :
    (y m d : ℕ)
    → 1 ≤ m
    → m ≤ 12
    → date y (m + 1) d ≡ date y m 1 + (days_in y (m - 1) + (d - 1)) * day_nanos
date-month_after y zero d p q = absurd (omega arith)
date-month_after y (suc k) d p q =
    let e : suc k - 1 ≡ k = omega arith in rw e (date-next_month y k d (omega arith))
