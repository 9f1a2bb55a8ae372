-- ===== src/Tests/Budgets.antt =====
-- The theorems on the budgets, the reconciliation and the logger, at concrete inputs.
use airelay.Base.{
  ◌+◌, ◌≤◌, ◌<◌, ◌≡◌, ◌↔◌, refl, Bool, true, false, some, List, [], ◌∷◌, ◌++◌, Bytes, bytes_eq_refl,
  arith,
}
use airelay.Float.{Float64}
use airelay.Time.{instant, date}
use airelay.Models.{Budget, period_daily}
use airelay.Budget.{daily}
use airelay.Budget.Keys.{by_day}
use airelay.Proxy.Event.{UsageEvent}
use airelay.Proxy.Backend.{found, nil}
use airelay.Proxy.Budgets.{
  check_budgets, load_budgets, reload, call, budget_cache_ttl, record_spend, period_start,
}
use airelay.Proxy.Budgets.Check.{Reached, readings, check_budgets_blocked}
use airelay.Proxy.Budgets.Cache.{load_budgets_again}
use airelay.Proxy.Budgets.Lost.{RedisLaws, check_budgets-record_spend}
use airelay.Proxy.Budgets.Keeps.{KeptBySpend}
use airelay.Proxy.Logger.{Logger, step, ticks}
use airelay.Proxy.Logger.Bounds.{IsValid}
use airelay.Proxy.Logger.Flow.{RowLaws, count_if, accepted, total, doubled_in, total-step}
use airelay.Tests.Reconciled.{toy_backend-IsQuiet}
use airelay.Tests.{
  event, incr, insert, noon, noon-IsTime, project, World, quiet, spent, fresh, logger_of,
  daily_budget, toy_backend, toy_float, toy_uuid,
}

check_budgets_blocked_example :
    let (up, s₁) = call toy_backend.redis_ping (fresh spent) in
    let (loaded, s₂) = load_budgets project s₁ in
    let (now, s₃) = call toy_backend.now s₂ in
    ((check_budgets project (fresh spent)).0.blocked ≡ true) ↔ (
      (up ≡ true)
      × (bgs : List Budget) × (loaded ≡ some bgs)
      × Reached bgs (readings project now bgs s₃))
check_budgets_blocked_example = check_budgets_blocked project (fresh spent)

load_budgets_again_example :
    let later = record (reload project (fresh quiet)).1 { world = spent } in
    (instant noon < instant noon + budget_cache_ttl
      → load_budgets project later ≡ (some (daily_budget ∷ []), later))
    × (instant noon + budget_cache_ttl ≤ instant noon
        → load_budgets project later ≡ reload project later)
load_budgets_again_example = load_budgets_again project (fresh quiet) spent (daily_budget ∷ []) refl

noon_start : period_start period_daily noon ≡ some (date 2024 1 31)
unfolding period_start
noon_start = refl

incr_missing_lem :
    (up : Bool) (key : Bytes) (c : Float64) (w : World)
    → w.counters key ≡ nil
    → (incr up key c w).0 ≡ true
    → (incr up key c w).1.counters key ≡ found c
incr_missing_lem true key c w e h = rw (bytes_eq_refl key, e) refl
incr_missing_lem false key c w e h = cc

rows-incr : (up : Bool) (k : Bytes) (c : Float64) (w : World) → (incr up k c w).1.rows ≡ w.rows
rows-incr true k c w = refl
rows-incr false k c w = refl

insert_adds_lem :
    (up : Bool) (e : UsageEvent) (w : World)
    → (insert up e w).0 ≡ true
    → (insert up e w).1.rows ≡ w.rows ++ e ∷ []
insert_adds_lem true e w h = refl
insert_adds_lem false e w h = cc

insert_fails_lem :
    (up : Bool) (e : UsageEvent) (w : World)
    → (insert up e w).0 ≡ false
    → (insert up e w).1.rows ≡ w.rows
insert_fails_lem true e w h = cc
insert_fails_lem false e w h = refl

abbrev toy_backend-RedisLaws : RedisLaws toy_backend
toy_backend-RedisLaws = record {
  stored = λ c. c;
  incr_missing = λ key c w e k. incr_missing_lem w.up key c w e k;
  incr_keeps_budgets = λ key c w p. refl;
  ttl_reads = λ key w. record { counters = λ k. refl; sums = λ p n. refl; budgets = λ p. refl };
  expire_keeps =
      λ key d w h. record { counters = λ k. refl; sums = λ p n. refl; budgets = λ p. refl };
}

check_budgets-record_spend_example :
    ((check_budgets project (fresh quiet)).0.blocked ≡ toy_float.le daily_budget.amount_usd 4)
    × ((check_budgets project (record_spend project daily 3 (fresh quiet)).1).0.blocked
        ≡ toy_float.le daily_budget.amount_usd 3)
unfolding record_spend period_start
check_budgets-record_spend_example =
    check_budgets-record_spend toy_backend-RedisLaws project by_day daily_budget 4 3 (fresh quiet)
      toy_backend-IsQuiet (omega arith) noon-IsTime refl refl refl refl refl refl refl refl refl

logger_of-IsValid : IsValid (logger_of quiet)
logger_of-IsValid = record {
  channel_le = ground arith;
  batch_lt = ground arith;
  dlq_le = ground arith;
}

toy_backend-KeptBySpend : KeptBySpend toy_backend World.rows
toy_backend-KeptBySpend = record {
  now_keeps = λ w. refl;
  budgets_keeps = λ p w. refl;
  incr_keeps = λ k c w. rows-incr w.up k c w;
  ttl_keeps = λ k w. refl;
  expire_keeps = λ k d w. refl;
}

toy_backend-RowLaws : RowLaws toy_backend World.rows
toy_backend-RowLaws = record {
  left_row = λ e w. false;
  insert_adds = λ e w h. insert_adds_lem w.up e w h;
  insert_fails = λ e w h. insert_fails_lem w.up e w h;
  kept = toy_backend-KeptBySpend;
}

any_event : UsageEvent → Bool
any_event e = true

-- One event waits to be written.
abbrev waiting : Logger World
waiting = record (logger_of quiet) { batch = event ∷ [] }

total-step_example :
    total World.rows toy_backend-RowLaws any_event (step waiting ticks)
    ≡ total World.rows toy_backend-RowLaws any_event waiting
      + count_if any_event (accepted waiting ticks)
      + doubled_in World.rows toy_backend-RowLaws any_event waiting ticks
total-step_example =
    total-step World.rows toy_backend-RowLaws any_event waiting ticks (ground arith)
