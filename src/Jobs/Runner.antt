-- ===== src/Jobs/Runner.antt =====
-- internal/jobs/runner.go: when the background jobs run. The unit of time is a second on the monotonic
-- clock. A goroutine moves on with each second, and when the call of its job returns; the calls
-- themselves are in the modules of the jobs. A ticker's channel holds one tick, and a tick that finds
-- it full is dropped.
pub mod Spaced
pub mod EveryDay
pub mod Schedule
use airelay.Base.{
  ℕ, ◌+◌, Bool, true, false, not, ◌&&◌, Option, none, some, List, [], ◌∷◌, leb, ◌==◌, if◌then◌else◌,
}

-- What moves a goroutine on.
pub data Moment : Type 0 where
  second_passes : Moment
  call_returns : Moment

-- time.Sleep(60 * time.Second)
abbrev pub pause : ℕ
pause = 60

-- time.NewTicker(24 * time.Hour)
abbrev pub day : ℕ
day = 86400

-- The goroutine of the reconciliation: in a call, or asleep until `wake`. `calls` are the times at
-- which calls began, the last one first.
pub record Sleeper : Type 0 where
  pub calls : List ℕ
  pub busy : Bool
  pub wake : ℕ

unfoldable pub start_sleeper : ℕ → Sleeper
start_sleeper now = record { calls = []; busy = false; wake = now + pause }

-- The sleep is over, if the goroutine sleeps.
unfoldable pub sleep_over : ℕ → Sleeper → Sleeper
sleep_over now s =
    if not s.busy && leb s.wake now
    then record { calls = now ∷ s.calls; busy = true; wake = s.wake }
    else s

unfoldable pub sleeper_moment : Moment → ℕ × Sleeper → ℕ × Sleeper
unfolding sleep_over
sleeper_moment second_passes (now, s) = (now + 1, sleep_over (now + 1) s)
sleeper_moment call_returns (now, s) =
    (now, if s.busy then record { calls = s.calls; busy = false; wake = now + pause } else s)

unfoldable pub sleeper_run : List Moment → ℕ × Sleeper → ℕ × Sleeper
sleeper_run [] s = s
sleeper_run (m ∷ ms) s = sleeper_run ms (sleeper_moment m s)

-- The goroutine of another job. `tick_at` is the time of the next tick, and `none` before the ticker
-- is made, which is behind the first call; `tick` is the tick in the channel.
pub record Looper : Type 0 where
  pub calls : List ℕ
  pub busy : Bool
  pub tick_at : Option ℕ
  pub tick : Bool

-- The first call is made at once.
unfoldable pub start_looper : ℕ → Looper
start_looper now = record { calls = now ∷ []; busy = true; tick_at = none; tick = false }

-- `for range ticker.C`: the loop takes the tick, if it waits and there is one.
unfoldable pub take_tick : ℕ → Looper → Looper
take_tick now l =
    if not l.busy && l.tick
    then record { calls = now ∷ l.calls; busy = true; tick_at = l.tick_at; tick = false }
    else l

ticker_at : ℕ → Option ℕ → Looper → Looper
ticker_at now none l = l
ticker_at now (some t) l =
    if now == t
    then record { calls = l.calls; busy = l.busy; tick_at = some (t + day); tick = true }
    else l

-- time.NewTicker, at the first return only
new_ticker : ℕ → Option ℕ → Option ℕ
new_ticker now none = some (now + day)
new_ticker now (some t) = some t

unfoldable pub looper_moment : Moment → ℕ × Looper → ℕ × Looper
unfolding take_tick ticker_at new_ticker
looper_moment second_passes (now, l) =
    (now + 1, take_tick (now + 1) (ticker_at (now + 1) l.tick_at l))
looper_moment call_returns (now, l) = (
  now,
  if l.busy
      then take_tick now (record {
        calls = l.calls;
        busy = false;
        tick_at = new_ticker now l.tick_at;
        tick = l.tick;
      })
      else l,
)

unfoldable pub looper_run : List Moment → ℕ × Looper → ℕ × Looper
looper_run [] l = l
looper_run (m ∷ ms) l = looper_run ms (looper_moment m l)

-- The goroutines of `Start`.
pub record Runner : Type 0 where
  pub reconcile : Sleeper
  pub pricing_sync : Looper
  pub partition : Looper
  pub ttl_sweep : Looper

-- Start
unfoldable pub start : ℕ → Runner
unfolding start_sleeper start_looper
start now = record {
  reconcile = start_sleeper now;
  pricing_sync = start_looper now;
  partition = start_looper now;
  ttl_sweep = start_looper now;
}
