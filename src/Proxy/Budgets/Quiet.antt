-- ===== src/Proxy/Budgets/Quiet.antt =====
-- What a check of budgets reads, while no one else writes and the day stays the same.
pub mod Decides
use airelay.Base.{
  ℕ, ◌^◌, ◌<◌, ◌≡◌, refl, sym, ap, ◌∙◌, ◌⊎◌, inl, inr, Bool, true, false, ◌||◌, Option, none, some,
  List, [], ◌∷◌, Bytes, bytes_eq, bytes_eq_iff, any, if◌then◌else◌, Bool-cases, Option-cases, arith,
}
use airelay.Float.{Float64, FloatOps}
use airelay.Time.{Time, IsTime, format_day, format_month}
use airelay.Uuid.{Uuid, UuidLib}
use airelay.Models.{Budget, BudgetPeriod}
use airelay.Budget.{spend_key, spend_key_ttl}
use airelay.Budget.Keys.{Window, by_day, by_month, window_name, spend_key-injective}
use airelay.Proxy.Backend.{Backend, Get, found, nil, failed}
use airelay.Proxy.Budgets.{
  State, call, period_start, exceeded, get_spend, spend_of_get, rebuild_from_db, sum_since,
  keep_rebuilt, check_each, check_loaded, check_budgets, load_budgets, load_cached, reload,
  fetch_and_store,
}

-- Two clock readings of one day.
abbrev pub SameDay : Time → Time → Type 0
SameDay t s = (t.year ≡ s.year) × (t.month ≡ s.month) × (t.day ≡ s.day)

module _ {W : Type 0} (be : Backend W) where
  -- What the program can see of the counters, the events and the budgets.
  pub record IsSame (w w' : W) : Type 0 where
    pub counters : (k : Bytes) → (be.redis_get_float k w').0 ≡ (be.redis_get_float k w).0
    pub sums : (p : Uuid) (a : ℕ) → (be.db_spend_since p a w').0 ≡ (be.db_spend_since p a w).0
    pub budgets : (p : Uuid) → (be.db_budgets p w').0 ≡ (be.db_budgets p w).0

  -- What Redis and Postgres document: reads change nothing, and a SET is what the next GET of its
  -- key gives. No other process writes in between, no counter expires, and the clock stays in the
  -- day of `t`.
  pub record IsQuiet (t : Time) : Type 0 where
    pub same_day : (w : W) → SameDay (be.now w).0 t
    pub now_reads : (w : W) → IsSame w (be.now w).1
    pub ping_reads : (w : W) → IsSame w (be.redis_ping w).1
    pub get_reads : (k : Bytes) (w : W) → IsSame w (be.redis_get_float k w).1
    pub sum_reads : (p : Uuid) (a : ℕ) (w : W) → IsSame w (be.db_spend_since p a w).1
    pub budgets_reads : (p : Uuid) (w : W) → IsSame w (be.db_budgets p w).1
    pub set_writes :
        (k j : Bytes) (v : Float64) (d : ℕ) (w : W)
        → (be.redis_get_float j (be.redis_set_float k v d w)).0
          ≡ (if bytes_eq j k then found v else (be.redis_get_float j w).0)
    pub set_keeps_sums :
        (k : Bytes) (v : Float64) (d : ℕ) (w : W) (p : Uuid) (a : ℕ)
        → (be.db_spend_since p a (be.redis_set_float k v d w)).0 ≡ (be.db_spend_since p a w).0

pub period_start_same :
    (period : BudgetPeriod) (t s : Time)
    → SameDay t s
    → period_start period t ≡ period_start period s
unfolding period_start
period_start_same period t s (y, m, d) = rw (y, m, d) refl

pub spend_key_same :
    ⦃lib : UuidLib⦄ (p : Uuid) (period : BudgetPeriod) (t s : Time)
    → SameDay t s
    → spend_key p period t ≡ spend_key p period s
unfolding spend_key format_day format_month
spend_key_same p period t s (y, m, d) = rw (y, m, d) refl

pub Get-cases : {A : Type 0} (g : Get A) → ((v : A) × (g ≡ found v)) ⊎ (g ≡ nil) ⊎ (g ≡ failed)
Get-cases (found v) = inl (v, refl)
Get-cases nil = inr (inl refl)
Get-cases failed = inr (inr refl)

unfoldable pub read_as : Option Float64 → Get Float64 → Option Float64
read_as sum (found v) = some v
read_as sum nil = sum
read_as sum failed = none

abbrev pub sum_from : (ℕ → Option Float64) → Option ℕ → Option Float64
sum_from sum none = none
sum_from sum (some a) = sum a

pub sum_from-same :
    (f g : ℕ → Option Float64) (o : Option ℕ) → ((a : ℕ) → f a ≡ g a) → sum_from f o ≡ sum_from g o
sum_from-same f g none h = refl
sum_from-same f g (some a) h = h a

module _ {W : Type 0} ⦃be : Backend W⦄ ⦃lib : UuidLib⦄ where
  -- The sum of the costs since the start of the period of `t`.
  abbrev pub sum_of : Uuid → BudgetPeriod → Time → W → Option Float64
  sum_of p period t w = sum_from (λ a. (be.db_spend_since p a w).0) (period_start period t)

  -- What a project has spent in a period: its counter, and the sum if there is no counter.
  unfoldable pub spent_in : Uuid → BudgetPeriod → Time → W → Option Float64
  unfolding read_as
  spent_in p period t w =
      read_as (sum_of p period t w) (be.redis_get_float (spend_key p period t) w).0

  pub spent_in-IsSame :
      (p : Uuid) (period : BudgetPeriod) (t : Time) (w w' : W)
      → IsSame be w w'
      → spent_in p period t w' ≡ spent_in p period t w
  unfolding spent_in
  spent_in-IsSame p period t w w' same = rw (same.counters (spend_key p period t)) (
      ap (λ (o : Option Float64). read_as o (be.redis_get_float (spend_key p period t) w).0)
        (sum_from-same _ _ (period_start period t) (same.sums p)))

  -- A counter that is missing, set to the sum of its period, changes no project's spend.
  pub spent_in-set :
      (p : Uuid) (v u : Window) (t : Time) (d : ℕ) (x : Float64) (w : W)
      → IsQuiet be t
      → p < 2 ^ 128
      → IsTime t
      → let key = spend_key p (window_name v) t in
        (be.redis_get_float key w).0 ≡ nil
        → sum_of p (window_name v) t w ≡ some x
        → spent_in p (window_name u) t (be.redis_set_float key x d w)
          ≡ spent_in p (window_name u) t w
  unfolding spent_in
  spent_in-set p v u t d x w quiet bound time missing sum =
      let key = spend_key p (window_name v) t in
      let other = spend_key p (window_name u) t in
      let sums : sum_of p (window_name u) t (be.redis_set_float key x d w)
          ≡ sum_of p (window_name u) t w =
        sum_from-same _ _ (period_start (window_name u) t) (quiet.set_keeps_sums key x d w p) in
      elim (Bool-cases (bytes_eq other key)) [
        | inl e ↦
            let same : u ≡ v =
              ((spend_key-injective p p u v t t bound bound time time).0
                ((bytes_eq_iff other key).0 e)).1 in
            rw (quiet.set_writes key other x d w, e, same, missing, sum) refl
        | inr e ↦ rw (quiet.set_writes key other x d w, e, sums) refl
      ]
