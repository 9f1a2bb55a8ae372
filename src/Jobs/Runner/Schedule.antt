-- ===== src/Jobs/Runner/Schedule.antt =====
-- When the calls of all four jobs begin.
use airelay.Base.{ℕ, ◌+◌, ◌<◌, ◌≡◌, List, [], ◌∷◌, All, length}
use airelay.Jobs.Runner.{Moment, day, start, sleeper_run}
use airelay.Jobs.Runner.Spaced.{AreSpaced, IsAwakened, start-AreSpaced}
use airelay.Jobs.Runner.EveryDay.{every_day, calls_lasting, start-every_day}

-- However long its calls last, the reconciliation is called a minute or more behind the call before,
-- or behind the start, and at any time it is in a call or wakes within the next minute. Each other
-- job is called at the start; where that call lasts `d` seconds, and each later one less than a day,
-- the later ones begin exactly a day apart, the first of them a day behind the end of the call at
-- the start: no tick is lost and none is taken late.
pub start_schedule :
    (ms : List Moment) (d now : ℕ) (ds : List ℕ)
    → All (λ n. n < day) ds
    → let (end, s) = sleeper_run ms (now, (start now).reconcile) in
      let times = every_day (length ds) (now + d + day) (now ∷ []) in
      (AreSpaced now s.calls × IsAwakened end s)
      × (calls_lasting d ds now (start now).pricing_sync ≡ times)
      × (calls_lasting d ds now (start now).partition ≡ times)
      × (calls_lasting d ds now (start now).ttl_sweep ≡ times)
start_schedule ms d now ds h =
    let e = start-every_day d now ds h in (start-AreSpaced ms now, e.0, e.1, e.2)
