-- ===== src/Budget/Keys.antt =====
-- Which spend counters are one counter.
use airelay.Base.{
  ◌^◌, ◌<◌, ◌≡◌, ◌≢◌, refl, sym, ap, ◌∙◌, ◌↔◌, Bytes, codes, append_cancel, bytes_apart, ◌++◌,
}
use airelay.Time.{Time, IsTime, format_day, format_month}
use airelay.Time.Format.{format_day-injective, format_month-injective}
use airelay.Uuid.{Uuid, UuidLib}
use airelay.Budget.{daily, monthly, spend_key}

-- The two periods that a budget can have.
pub data Window : Type 0 where
  by_day by_month : Window

abbrev pub window_name : Window → Bytes
window_name by_day = daily
window_name by_month = monthly

abbrev pub SameWindow : Window → Time → Time → Type 0
SameWindow by_day t s = (t.year ≡ s.year) × (t.month ≡ s.month) × (t.day ≡ s.day)
SameWindow by_month t s = (t.year ≡ s.year) × (t.month ≡ s.month)

-- The text behind the project of a spend key.
abbrev tail_of : Window → Time → Bytes
tail_of by_day t = codes ":daily:" ++ format_day t
tail_of by_month t = codes ":monthly:" ++ format_month t

format_day_of_same : (t s : Time) → SameWindow by_day t s → format_day t ≡ format_day s
unfolding format_day format_month
format_day_of_same t s (y, m, d) = rw (y, m, d)

format_month_of_same : (t s : Time) → SameWindow by_month t s → format_month t ≡ format_month s
unfolding format_month
format_month_of_same t s (y, m) = rw (y, m)

tail_of_same : (v : Window) (t s : Time) → SameWindow v t s → tail_of v t ≡ tail_of v s
tail_of_same by_day t s h = ap (◌++◌ (codes ":daily:")) (format_day_of_same t s h)
tail_of_same by_month t s h = ap (◌++◌ (codes ":monthly:")) (format_month_of_same t s h)

codes_apart : codes ":d" ≢ codes ":m"
codes_apart = bytes_apart (codes ":d") (codes ":m") refl

tail_of-injective :
    (v w : Window) (t s : Time)
    → IsTime t
    → IsTime s
    → tail_of v t ≡ tail_of w s
    → (v ≡ w) × SameWindow v t s
tail_of-injective by_day by_day t s p q e = (
  refl,
  format_day-injective t s p q (append_cancel (codes ":daily:") (codes ":daily:") _ _ refl e).1,
)
tail_of-injective by_month by_month t s p q e = (
  refl,
  format_month-injective t s p q
      (append_cancel (codes ":monthly:") (codes ":monthly:") _ _ refl e).1,
)
tail_of-injective by_day by_month t s p q e =
    let d = (append_cancel (codes ":d") (codes ":m") _ _ refl e).0 in absurd (codes_apart d)
tail_of-injective by_month by_day t s p q e =
    let d = (append_cancel (codes ":m") (codes ":d") _ _ refl e).0 in absurd (codes_apart (sym d))

module _ ⦃lib : UuidLib⦄ where
  -- A spend key of a known period is the project's text between fixed texts.
  pub spend_key_lem :
      (p : Uuid) (v : Window) (t : Time)
      → spend_key p (window_name v) t ≡ codes "spend:" ++ (lib.to_string p ++ tail_of v t)
  unfolding spend_key
  spend_key_lem p by_day t = refl
  spend_key_lem p by_month t = refl

  to_string-injective :
      (p q : Uuid) → p < 2 ^ 128 → q < 2 ^ 128 → lib.to_string p ≡ lib.to_string q → p ≡ q
  to_string-injective p q hp hq e =
      cc (lib.parse-to_string p hp, lib.parse-to_string q hq, ap lib.parse e)

  -- Two spend keys of ids of 128 bits and of readings of the clock are equal exactly when they are of
  -- one project and of one period's one day or
  -- month: no two counters share a Redis key, and every reader of a counter finds the same one.
  pub spend_key-injective :
      (p q : Uuid) (v w : Window) (t s : Time)
      → p < 2 ^ 128
      → q < 2 ^ 128
      → IsTime t
      → IsTime s
      → (spend_key p (window_name v) t ≡ spend_key q (window_name w) s)
        ↔ ((p ≡ q) × (v ≡ w) × SameWindow v t s)
  spend_key-injective p q v w t s hp hq ht hs = (
    λ e.
        let e' = sym (spend_key_lem p v t) ∙ e ∙ spend_key_lem q w s in
        let (_, r) = append_cancel (codes "spend:") (codes "spend:") _ _ refl e' in
        let (u, r') =
          append_cancel (lib.to_string p) (lib.to_string q) _ _
            (lib.length-to_string p ∙ sym (lib.length-to_string q)) r in
        let (x, y) = tail_of-injective v w t s ht hs r' in (to_string-injective p q hp hq u, x, y),
    λ (e, f, g).
        spend_key_lem p v t
        ∙ ap (λ x. codes "spend:" ++ (lib.to_string x ++ tail_of v t)) e
        ∙ ap (λ x. codes "spend:" ++ (lib.to_string q ++ x)) (tail_of_same v t s g)
        ∙ ap (λ x. codes "spend:" ++ (lib.to_string q ++ tail_of x s)) f
        ∙ sym (spend_key_lem q w s),
  )
