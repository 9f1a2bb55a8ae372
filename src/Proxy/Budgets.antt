-- ===== src/Proxy/Budgets.antt =====
-- proxy/budget.go: the check of a project's spend against its budgets, and the recording of spend.
-- The state is the outside world and the in-process `sync.Map` of budgets.
pub mod Check
pub mod Cache
pub mod Spend
pub mod Lost
pub mod Keeps
pub mod Quiet
use airelay.Base.{
  ℕ, ◌+◌, ◌*◌, Bool, true, false, ◌&&◌, Option, none, some, List, [], ◌∷◌, ◌++◌, Bytes, codes, ltb,
  ◌==◌, bytes_eq, if◌then◌else◌,
}
use airelay.Float.{Float64, FloatOps}
use airelay.Time.{Time, date, instant, minute}
use airelay.Uuid.{Uuid, UuidLib}
use airelay.Models.{Budget, BudgetPeriod, period_daily, period_monthly}
use airelay.Budget.{spend_key, spend_key_ttl}
use airelay.Proxy.Backend.{Backend, Get, found, nil, failed, Ttl, negative, remaining}

pub record BudgetResult : Type 0 where
  pub blocked : Bool
  pub reason : Bytes
  pub redis_down : Bool

pub record CachedBudgets : Type 0 where
  pub budgets : List Budget
  pub expires_at : ℕ  -- an instant

-- A sync.Map from projects: a store hides an older entry of its key.
abbrev pub BudgetCache : Type 0
BudgetCache = Uuid → Option CachedBudgets

pub record State (W : Type 0) : Type 0 where
  pub world : W
  pub cache : BudgetCache

abbrev pub M : Type 0 → Type 0 → Type 0
M W A = State W → A × State W

module _ {W : Type 0} where
  infixl 5 ◌>>=◌ ◌>>◌
  abbrev pub ◌>>=◌ : {A B : Type 0} → M W A → (A → M W B) → M W B
  ◌>>=◌ m f s = f (m s).0 (m s).1

  abbrev pub ◌>>◌ : {A B : Type 0} → M W A → M W B → M W B
  m >> k = m >>= λ _. k

  abbrev pub pure : {A : Type 0} → A → M W A
  pure a s = (a, s)

  -- A call to the outside world.
  abbrev pub call : {A : Type 0} → (W → A × W) → M W A
  call f s = ((f s.world).0, record s { world = (f s.world).1 })

  -- A call whose result the program ignores.
  abbrev pub tell : (W → W) → M W (Unit {0})
  tell f s = (tt, record s { world = f s.world })

  -- b.budgetCache.Store(key, entry)
  unfoldable pub store : Uuid → CachedBudgets → M W (Unit {0})
  store project entry s =
      (tt, record s { cache = λ p. if p == project then some entry else s.cache p })

  -- b.InvalidateBudgetCache(projectID)
  unfoldable pub invalidate_budget_cache : Uuid → M W (Unit {0})
  invalidate_budget_cache project s =
      (tt, record s { cache = λ p. if p == project then none else s.cache p })

abbrev pub budget_cache_ttl : ℕ
budget_cache_ttl = 2 * minute

-- A request that the budgets let pass.
abbrev pub allowed : Bool → BudgetResult
allowed down = record { blocked = false; reason = []; redis_down = down }

-- The start of the period, an instant; `none` is the error "unknown budget period".
unfoldable pub period_start : BudgetPeriod → Time → Option ℕ
period_start period now =
    if bytes_eq period period_daily
    then some (date now.year now.month now.day)
    else if bytes_eq period period_monthly
    then some (date now.year now.month 1)
    else none

module _ ⦃fl : FloatOps⦄ where
  unfoldable pub exceeded : Budget → Option Float64 → Bool
  exceeded bg none = false
  exceeded bg (some spend) = bg.hard_limit && fl.le bg.amount_usd spend

  -- fmt.Sprintf("%s budget of $%.4f exceeded (spend: $%.4f)", …)
  reason_of : Budget → Option Float64 → Bytes
  reason_of bg none = []
  reason_of bg (some spend) =
      bg.period
      ++ (codes " budget of $"
          ++ (fl.format_4 bg.amount_usd
              ++ (codes " exceeded (spend: $" ++ (fl.format_4 spend ++ codes ")"))))

module _ {W : Type 0} ⦃be : Backend W⦄ where
  fetch_and_store : Uuid → Option (List Budget) → M W (Option (List Budget))
  unfolding store
  fetch_and_store project none = pure none
  fetch_and_store project (some bgs) = do
    now ← call be.now
    store project (record { budgets = bgs; expires_at = instant now + budget_cache_ttl })
    pure (some bgs)

  -- The path of a cache miss.
  unfoldable pub reload : Uuid → M W (Option (List Budget))
  unfolding fetch_and_store
  reload project = do fetched ← call (be.db_budgets project); fetch_and_store project fetched

  load_cached : Uuid → Option CachedBudgets → M W (Option (List Budget))
  unfolding reload
  load_cached project none = reload project
  load_cached project (some c) = do
    now ← call be.now
    if ltb (instant now) c.expires_at then pure (some c.budgets) else reload project

  unfoldable pub load_budgets : Uuid → M W (Option (List Budget))
  unfolding load_cached
  load_budgets project s = load_cached project (s.cache project) s

  sum_since : Uuid → Option ℕ → M W (Option Float64)
  sum_since project none = pure none
  sum_since project (some start) = call (be.db_spend_since project start)

  unfoldable pub rebuild_from_db : Uuid → BudgetPeriod → M W (Option Float64)
  unfolding sum_since
  rebuild_from_db project period = do now ← call be.now; sum_since project (period_start period now)

  keep_rebuilt : Bytes → BudgetPeriod → Option Float64 → M W (Option Float64)
  keep_rebuilt key period none = pure none
  keep_rebuilt key period (some spend) = do
    now ← call be.now
    tell (be.redis_set_float key spend (spend_key_ttl period now))
    pure (some spend)

  spend_of_get : Bytes → Uuid → BudgetPeriod → Get Float64 → M W (Option Float64)
  unfolding keep_rebuilt
  spend_of_get key project period (found v) = pure (some v)
  spend_of_get key project period failed = pure none
  spend_of_get key project period nil = do
    spend ← rebuild_from_db project period
    keep_rebuilt key period spend

  unfoldable pub get_spend : Bytes → Uuid → BudgetPeriod → M W (Option Float64)
  unfolding spend_of_get
  get_spend key project period = do
    val ← call (be.redis_get_float key)
    spend_of_get key project period val

  expire_new : Bytes → BudgetPeriod → Time → Option Ttl → M W (Unit {0})
  expire_new key period now (some negative) = tell (be.redis_expire key (spend_key_ttl period now))
  expire_new key period now (some (remaining _)) = pure tt
  expire_new key period now none = pure tt

  module _ ⦃lib : UuidLib⦄ where
    unfoldable pub record_spend : Uuid → BudgetPeriod → Float64 → M W (Unit {0})
    unfolding expire_new
    record_spend project period cost = do
      now ← call be.now
      added ← call (be.redis_incr_by_float (spend_key project period now) cost)
      if added
          then (call (be.redis_ttl (spend_key project period now))
              >>= expire_new (spend_key project period now) period now)
          else pure tt

  module _ ⦃fl : FloatOps⦄ ⦃lib : UuidLib⦄ where
    -- The loop over the budgets.
    unfoldable pub check_each : Uuid → Time → List Budget → M W BudgetResult
    unfolding exceeded reason_of
    check_each project now [] = pure (allowed false)
    check_each project now (bg ∷ rest) = do
      spend ← get_spend (spend_key project bg.period now) project bg.period
      if exceeded bg spend
          then pure (record { blocked = true; reason = reason_of bg spend; redis_down = false })
          else check_each project now rest

    check_loaded : Uuid → Option (List Budget) → M W BudgetResult
    unfolding check_each
    check_loaded project none = pure (allowed false)
    check_loaded project (some budgets) = do now ← call be.now; check_each project now budgets

    unfoldable pub check_budgets : Uuid → M W BudgetResult
    unfolding check_loaded
    check_budgets project = do
      up ← call be.redis_ping
      if up then (load_budgets project >>= check_loaded project) else pure (allowed true)
