-- ===== src/Jobs/TtlSweep.antt =====
-- internal/jobs/ttlsweep.go: which spend counters the sweep deletes.
pub mod Scan
use airelay.Base.{
  ◌≡◌, ◌↔◌, refl, Bool, true, false, not, List, [], ◌∷◌, ◌++◌, Bytes, codes, bytes_eq, bytes_eq_iff,
  Bool-cases, Lacks, inl, inr, split, split-append, split_absent, if◌then◌else◌, arith,
}
use airelay.Time.{Time, IsTime, format_day, format_month}
use airelay.Time.Format.{
  format_day-Lacks, format_month-Lacks, format_day-injective, format_month-injective,
}
use airelay.Uuid.{Uuid, UuidLib}
use airelay.Budget.{daily, monthly, spend_key}
use airelay.Budget.Keys.{Window, by_day, by_month, window_name, SameWindow}

-- The test of the third and the fourth part of a key.
expired_parts : List Bytes → Bytes → Bytes → Bool
expired_parts (_ ∷ _ ∷ period ∷ value ∷ _) today this_month =
    if bytes_eq period daily
    then not (bytes_eq value today)
    else if bytes_eq period monthly
    then not (bytes_eq value this_month)
    else false
expired_parts _ today this_month = false

unfoldable pub is_expired_spend_key : Bytes → Bytes → Bytes → Bool
unfolding expired_parts
is_expired_spend_key key today this_month = expired_parts (split b':' key) today this_month

-- The loop over the keys of one page of the SCAN. `del` is the DEL of a key, whose result the
-- program ignores.
unfoldable pub sweep_page : {W : Type 0} → (Bytes → W → W) → Time → List Bytes → W → W
sweep_page del now [] w = w
sweep_page del now (key ∷ keys) w =
    sweep_page del now keys
      (if is_expired_spend_key key (format_day now) (format_month now) then del key w else w)

-- The text of a reading in a window's format.
abbrev format_of : Window → Time → Bytes
format_of by_day t = format_day t
format_of by_month t = format_month t

name-Lacks : (v : Window) → Lacks b':' (window_name v)
name-Lacks by_day = ground arith
name-Lacks by_month = ground arith

format_of-Lacks : (v : Window) (t : Time) → Lacks b':' (format_of v t)
format_of-Lacks by_day t = format_day-Lacks b':' t (omega arith)
format_of-Lacks by_month t = format_month-Lacks b':' t (omega arith)

format_of_iff :
    (v : Window) (t s : Time)
    → IsTime t
    → IsTime s
    → (format_of v t ≡ format_of v s) ↔ SameWindow v t s
unfolding format_day format_month
format_of_iff by_day t s h k = (format_day-injective t s h k, λ (y, m, d). rw (y, m, d))
format_of_iff by_month t s h k = (format_month-injective t s h k, λ (y, m). rw (y, m))

not-bytes_eq : (xs ys : Bytes) → (not (bytes_eq xs ys) ≡ false) ↔ (xs ≡ ys)
not-bytes_eq xs ys = (
  λ e. elim (Bool-cases (bytes_eq xs ys)) [ inl t ↦ (bytes_eq_iff xs ys).0 t | inr f ↦ cc ],
  λ e. let t : bytes_eq xs ys ≡ true = (bytes_eq_iff xs ys).1 e in rw t refl,
)

expired_of_window :
    (v : Window) (project value : Bytes) (now : Time)
    → expired_parts
        (codes "spend" ∷ project ∷ window_name v ∷ value ∷ [])
        (format_day now)
        (format_month now)
      ≡ not (bytes_eq value (format_of v now))
unfolding expired_parts
expired_of_window by_day project value now = refl
expired_of_window by_month project value now = refl

module _ ⦃lib : UuidLib⦄ where
  spend_key_shape :
      (p : Uuid) (v : Window) (t : Time)
      → spend_key p (window_name v) t
        ≡ codes "spend"
          ++ b':' ∷ (lib.to_string p ++ b':' ∷ (window_name v ++ b':' ∷ format_of v t))
  unfolding spend_key
  spend_key_shape p by_day t = refl
  spend_key_shape p by_month t = refl

  spend_key_parts :
      (p : Uuid) (v : Window) (t : Time)
      → split b':' (spend_key p (window_name v) t)
        ≡ codes "spend" ∷ lib.to_string p ∷ window_name v ∷ format_of v t ∷ []
  spend_key_parts p v t =
      rw
        (
          spend_key_shape p v t,
          split-append b':' (codes "spend")
              (lib.to_string p ++ b':' ∷ (window_name v ++ b':' ∷ format_of v t)) (ground arith),
          split-append b':' (lib.to_string p) (window_name v ++ b':' ∷ format_of v t)
              (lib.to_string-Lacks_colon p),
          split-append b':' (window_name v) (format_of v t) (name-Lacks v),
          split_absent b':' (format_of v t) (format_of-Lacks v t),
        )
        refl

  -- The sweep takes a spend counter for expired exactly when it is not of the day, or the month,
  -- of the sweep's reading of the clock: no live counter goes and no old one stays.
  pub is_expired-spend_key :
      (project : Uuid) (v : Window) (t now : Time)
      → IsTime t
      → IsTime now
      → (is_expired_spend_key
            (spend_key project (window_name v) t)
            (format_day now)
            (format_month now)
          ≡ false)
        ↔ SameWindow v t now
  unfolding is_expired_spend_key
  is_expired-spend_key project v t now ht hn =
      let same = format_of_iff v t now ht hn in
      let test = not-bytes_eq (format_of v t) (format_of v now) in
      rw
        (
          spend_key_parts project v t,
          expired_of_window v (lib.to_string project) (format_of v t) now,
        )
        (λ e. same.0 (test.0 e), λ e. test.1 (same.1 e))
