-- ===== src/Time.antt =====
-- Package time as the program uses it: instants in UTC, `time.Date`, `Sub` and `Format`.
-- An instant is a count of nanoseconds from the start of the year 0, and a `Time` is the civil
-- reading of one. `Duration` is a count of nanoseconds; the years are those from 0 to 9999, where
-- `Format` prints four digits.
pub mod Calendar
pub mod Format
use airelay.Base.{
  ℕ, zero, suc, ◌+◌, ◌-◌, ◌*◌, ◌/◌, ◌%◌, ◌≤◌, ◌<◌, Bool, ◌&&◌, ◌||◌, not, List, [], ◌∷◌, ◌++◌,
  Bytes, codes, ◌==◌, if◌then◌else◌,
}

pub record Time : Type 0 where
  pub year : ℕ
  pub month : ℕ
  pub day : ℕ
  pub nanos : ℕ  -- since midnight

abbrev pub second : ℕ
second = 1000000000

abbrev pub minute : ℕ
minute = 60000000000

abbrev pub hour : ℕ
hour = 3600000000000

-- 24 hours: UTC has no daylight saving.
abbrev pub day_nanos : ℕ
day_nanos = 86400000000000

pub is_leap : ℕ → Bool
is_leap y = (y % 4 == 0) && (not (y % 100 == 0) || (y % 400 == 0))

-- The days of a month, counted from 0.
abbrev common_days : ℕ → List ℕ → ℕ
common_days _ [] = 0
common_days zero (d ∷ ds) = d
common_days (suc m) (d ∷ ds) = common_days m ds

abbrev months : Bool → List ℕ
months leap = 31 ∷ (if leap then 29 else 28) ∷ 31 ∷ 30 ∷ 31 ∷ 30 ∷ 31 ∷ 31 ∷ 30 ∷ 31 ∷ 30 ∷ 31 ∷ []

unfoldable pub days_in : ℕ → ℕ → ℕ
unfolding is_leap
days_in y m = common_days m (months (is_leap y))

-- The days of the year `y` before its month `m`, counted from 0.
unfoldable pub days_before : ℕ → ℕ → ℕ
unfolding days_in
days_before y zero = 0
days_before y (suc m) = days_before y m + days_in y m

-- The days before the year `y`.
unfoldable pub days_before_year : ℕ → ℕ
days_before_year y = 365 * y + (y + 3) / 4 - (y + 99) / 100 + (y + 399) / 400

-- time.Date(y, m, d, 0, 0, 0, 0, time.UTC): a month past December runs into the next years, and a
-- day past the end of the month into the next months.
unfoldable pub date : ℕ → ℕ → ℕ → ℕ
date y m d =
    let years = y + (m - 1) / 12 in
    (days_before_year years + days_before years ((m - 1) % 12) + (d - 1)) * day_nanos

-- The instant of a civil reading.
unfoldable pub instant : Time → ℕ
instant t = date t.year t.month t.day + t.nanos

-- A reading that `time.Now().UTC()` can give.
pub record IsTime (t : Time) : Type 0 where
  pub year_digits : t.year < 10000
  pub month_pos : 1 ≤ t.month
  pub month_le : t.month ≤ 12
  pub day_pos : 1 ≤ t.day
  pub day_le : t.day ≤ days_in t.year (t.month - 1)
  pub nanos_lt : t.nanos < day_nanos

abbrev digit : ℕ → ℕ
digit n = b'0' + n % 10

abbrev pub two_digits : ℕ → Bytes
two_digits n = digit (n / 10) ∷ digit n ∷ []

abbrev pub four_digits : ℕ → Bytes
four_digits n = digit (n / 1000) ∷ digit (n / 100) ∷ digit (n / 10) ∷ digit n ∷ []

-- t.Format("2006-01")
unfoldable pub format_month : Time → Bytes
format_month t = four_digits t.year ++ b'-' ∷ two_digits t.month

-- t.Format("2006-01-02")
unfoldable pub format_day : Time → Bytes
format_day t = format_month t ++ b'-' ∷ two_digits t.day
