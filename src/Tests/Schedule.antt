-- ===== src/Tests/Schedule.antt =====
-- The theorems on the schedule of the background jobs, at concrete inputs.
use airelay.Base.{ℕ, ◌+◌, ◌≡◌, refl, List, [], ◌∷◌, ◌++◌, length, arith}
use airelay.Jobs.Runner.{
  Moment, call_returns, day, start, start_sleeper, sleeper_run, sleeper_moment, sleep_over,
}
use airelay.Jobs.Runner.Spaced.{AreSpaced, IsAwakened}
use airelay.Jobs.Runner.EveryDay.{seconds, every_day, calls_lasting}
use airelay.Jobs.Runner.Schedule.{start_schedule}

-- An hour, a second and half a day.
abbrev durations : List ℕ
durations = 3600 ∷ 1 ∷ 43200 ∷ []

every_day_run : every_day 2 130 (100 ∷ []) ≡ 86530 ∷ 130 ∷ 100 ∷ []
unfolding every_day
every_day_run = refl

-- A call of the reconciliation that lasts two seconds.
abbrev moments : List Moment
moments = seconds 62 ++ call_returns ∷ seconds 61

reconciled_twice : (sleeper_run moments (0, (start 0).reconcile)).1.calls ≡ 122 ∷ 60 ∷ []
unfolding sleeper_run seconds sleeper_moment sleep_over start start_sleeper
reconciled_twice = refl

start_schedule_example :
    let (end, s) = sleeper_run moments (100, (start 100).reconcile) in
    let times = every_day (length durations) (100 + 30 + day) (100 ∷ []) in
    (AreSpaced 100 s.calls × IsAwakened end s)
    × (calls_lasting 30 durations 100 (start 100).pricing_sync ≡ times)
    × (calls_lasting 30 durations 100 (start 100).partition ≡ times)
    × (calls_lasting 30 durations 100 (start 100).ttl_sweep ≡ times)
start_schedule_example =
    start_schedule moments 30 100 durations (omega arith, (omega arith, (omega arith, tt)))
