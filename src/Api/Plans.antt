-- ===== src/Api/Plans.antt =====
-- api/middleware.go: what a plan allows. 0 projects or keys stand for no limit; `none` days, which
-- the code writes -1, for the whole history.
use airelay.Base.{ℕ, ◌*◌, ◌-◌, Option, none, some, bytes_eq, if◌then◌else◌}
use airelay.Time.{Time, instant, day_nanos}
use airelay.Models.{UserPlan, plan_pro, plan_team, zero_time}

pub record PlanLimits : Type 0 where
  pub max_projects : ℕ
  pub max_keys : ℕ
  pub history_days : Option ℕ

-- Limits(plan)
unfoldable pub limits : UserPlan → PlanLimits
limits plan =
    if bytes_eq plan plan_pro
    then record { max_projects = 0; max_keys = 0; history_days = some 90 }
    else if bytes_eq plan plan_team
    then record { max_projects = 0; max_keys = 0; history_days = none }
    else record { max_projects = 1; max_keys = 1; history_days = some 7 }

-- The start of a history of so many days before `now`, an instant; Go's zero time without a limit.
start_of : Option ℕ → Time → ℕ
start_of none now = instant zero_time
start_of (some days) now = instant now - days * day_nanos

-- HistoryStart(plan) at the reading `now`.
unfoldable pub history_start : UserPlan → Time → ℕ
unfolding start_of
history_start plan now = start_of (limits plan).history_days now
