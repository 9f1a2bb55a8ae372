-- ===== src/Proxy/Logger.antt =====
-- proxy/logger.go: the asynchronous writer of usage events. The state is the channel, the batch of
-- `run`, the dead letter queue, and the state of the budget checker with the world in it. A step is
-- one call of `Log` or one round of the loop of `run`.
pub mod Bounds
pub mod Flow
use airelay.Base.{
  ℕ, Bool, true, false, Option, none, some, List, [], ◌∷◌, ◌++◌, length, ltb, leb, if◌then◌else◌,
}
use airelay.Float.{Float64}
use airelay.Uuid.{Uuid, UuidLib}
use airelay.Models.{Budget}
use airelay.Proxy.Event.{UsageEvent}
use airelay.Proxy.Backend.{Backend}
use airelay.Proxy.Dlq.{enqueue}
use airelay.Proxy.Budgets.{State, M, ◌>>=◌, ◌>>◌, pure, call, load_budgets, record_spend}

abbrev pub channel_cap : ℕ
channel_cap = 50000

abbrev pub batch_cap : ℕ
batch_cap = 100

pub record Logger (W : Type 0) : Type 0 where
  pub ch : List UsageEvent
  pub batch : List UsageEvent
  pub dlq : List UsageEvent
  pub budgets : State W

pub data Action : Type 0 where
  logs : UsageEvent → Action
  receives ticks : Action

module _ {W : Type 0} where
  -- l.Log(e): a full channel drops the event.
  unfoldable pub log : Logger W → UsageEvent → Logger W
  log l e = if ltb (length l.ch) channel_cap then record l { ch = l.ch ++ e ∷ [] } else l

module _ {W : Type 0} ⦃be : Backend W⦄ where
  -- writeUsageEvent(ctx, db, e), which is also l.LogDirect(ctx, e); true is no error.
  unfoldable pub write_usage_event : UsageEvent → M W Bool
  write_usage_event e = call (be.db_insert_event e)

module _ {W : Type 0} ⦃be : Backend W⦄ ⦃lib : UuidLib⦄ where
  -- The loop over the periods that have budgets.
  record_periods : Uuid → Float64 → List Budget → M W (Unit {0})
  record_periods project cost [] = pure tt
  record_periods project cost (b ∷ rest) =
      record_spend project b.period cost >> record_periods project cost rest

  record_loaded : Uuid → Float64 → Option (List Budget) → M W (Unit {0})
  unfolding record_periods
  record_loaded project cost none = pure tt
  record_loaded project cost (some bgs) = record_periods project cost bgs

  record_cost : Uuid → Option Float64 → M W (Unit {0})
  unfolding record_loaded
  record_cost project none = pure tt
  record_cost project (some cost) = load_budgets project >>= record_loaded project cost

  -- l.recordSpend(ctx, e)
  unfoldable pub record_event_spend : UsageEvent → M W (Unit {0})
  unfolding record_cost
  record_event_spend e = record_cost e.project_id e.cost_usd

  written : UsageEvent → Bool → State W → List UsageEvent → State W × List UsageEvent
  written e true s dlq = ((record_event_spend e s).1, dlq)
  written e false s dlq = (s, enqueue dlq e)

  -- The loop of `flush` over the batch.
  unfoldable pub flush_each :
      List UsageEvent → State W → List UsageEvent → State W × List UsageEvent
  unfolding written write_usage_event
  flush_each [] s dlq = (s, dlq)
  flush_each (e ∷ batch) s dlq =
      let (done, s₁) = write_usage_event e s in
      let (s₂, dlq') = written e done s₁ dlq in flush_each batch s₂ dlq'

  -- An empty batch is left alone, which is the same.
  unfoldable pub flush : Logger W → Logger W
  flush l =
      let (s, dlq) = flush_each l.batch l.budgets l.dlq in
      record l { batch = []; dlq = dlq; budgets = s }

  receive_from : Logger W → List UsageEvent → Logger W
  receive_from l [] = l
  receive_from l (e ∷ rest) =
      let taken = record l { ch = rest; batch = l.batch ++ e ∷ [] } in
      if leb batch_cap (length taken.batch) then flush taken else taken

  -- `case e := <-l.ch`; the loop waits while the channel is empty.
  unfoldable pub receive : Logger W → Logger W
  unfolding receive_from
  receive l = receive_from l l.ch

  unfoldable pub step : Logger W → Action → Logger W
  step l (logs e) = log l e
  step l receives = receive l
  step l ticks = flush l

  unfoldable pub run : Logger W → List Action → Logger W
  run l [] = l
  run l (a ∷ rest) = run (step l a) rest
