-- ===== src/Time/Format.antt =====
-- A formatted date fixes its date, and holds neither of the separators of the cache keys.
use airelay.Base.{ℕ, ◌-◌, ◌<◌, ◌≡◌, refl, arith, ◌∷◌, [], Lacks, append_cancel}
use airelay.Time.{Time, IsTime, format_month, format_day, two_digits, four_digits}
use airelay.Time.Calendar.{days_in-le}

two_digits-injective : (a b : ℕ) → a < 100 → b < 100 → two_digits a ≡ two_digits b → a ≡ b
two_digits-injective a b p q e = ground arith

four_digits-injective : (a b : ℕ) → a < 10000 → b < 10000 → four_digits a ≡ four_digits b → a ≡ b
four_digits-injective a b p q e = ground arith

module _ (t s : Time) (p : IsTime t) (q : IsTime s) where
  pub format_month-injective :
      format_month t ≡ format_month s → (t.year ≡ s.year) × (t.month ≡ s.month)
  unfolding format_month
  format_month-injective e =
      let (y, r) = append_cancel (four_digits t.year) (four_digits s.year) _ _ refl e in
      let (_, m) = append_cancel (b'-' ∷ []) (b'-' ∷ []) _ _ refl r in
      (
        four_digits-injective t.year s.year (omega arith) (omega arith) y,
        two_digits-injective t.month s.month (omega arith) (omega arith) m,
      )

  pub format_day-injective :
      format_day t ≡ format_day s → (t.year ≡ s.year) × (t.month ≡ s.month) × (t.day ≡ s.day)
  unfolding format_day
  format_day-injective e =
      let (ym, r) =
        append_cancel (format_month t) (format_month s) _ _ (unfold format_month in refl) e in
      let (y, m) = format_month-injective ym in
      let (_, d) = append_cancel (b'-' ∷ []) (b'-' ∷ []) _ _ refl r in
      let a = days_in-le t.year (t.month - 1) in
      let b = days_in-le s.year (s.month - 1) in
      (y, m, two_digits-injective t.day s.day (omega arith) (omega arith) d)

-- No format of a date holds a byte above `9`.
digits-Lacks : (c y : ℕ) → b'9' < c → Lacks c (four_digits y)
digits-Lacks c y h = ground arith

pub format_month-Lacks : (c : ℕ) (t : Time) → b'9' < c → Lacks c (format_month t)
unfolding format_month
format_month-Lacks c t h = ground arith

pub format_day-Lacks : (c : ℕ) (t : Time) → b'9' < c → Lacks c (format_day t)
unfolding format_day format_month
format_day-Lacks c t h = ground arith
