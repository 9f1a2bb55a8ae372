-- ===== src/Proxy/Dlq.antt =====
-- proxy/dlq.go: the in-memory queue of the events whose write failed, and its retry goroutine.
-- The mutex makes each locked section one step. Between the snapshot of `retryLoop` and its merge
-- other goroutines may enqueue, so the loop is three steps: it wakes, flushes the batch, merges.
pub mod Bounds
pub mod Merge
pub mod Drain
pub mod Round
use airelay.Base.{
  ℕ, zero, suc, ◌+◌, ◌-◌, min, Bool, List, [], ◌∷◌, ◌++◌, leb, if◌then◌else◌, length, drop, refl,
  ◌≡◌, Option, none, some,
}
use airelay.Proxy.Event.{UsageEvent}

abbrev pub dlq_cap : ℕ
dlq_cap = 50000

-- d.Enqueue(e): a full queue drops its oldest event.
unfoldable pub enqueue : List UsageEvent → UsageEvent → List UsageEvent
enqueue queue e = (if leb dlq_cap (length queue) then drop 1 queue else queue) ++ e ∷ []

-- The events of a batch that the writes refuse, and those that they take. `fails n` says whether
-- the n-th write of the batch returns an error.
unfoldable pub flush_batch : (ℕ → Bool) → List UsageEvent → List UsageEvent × List UsageEvent
flush_batch fails [] = ([], [])
flush_batch fails (e ∷ batch) =
    let (failed, written) = flush_batch (λ n. fails (suc n)) batch in
    if fails 0 then (e ∷ failed, written) else (failed, e ∷ written)

-- Where the retry goroutine is: in its sleep, or behind the snapshot of a batch.
pub data Phase : Type 0 where
  sleeping : Phase
  flushing : List UsageEvent → Phase

pub record Dlq : Type 0 where
  pub queue : List UsageEvent
  pub attempt : ℕ
  pub phase : Phase
  -- the rows that the retries have written, oldest first
  pub rows : List UsageEvent

-- len(backoff)
abbrev pub backoffs : ℕ
backoffs = 3

-- The seconds of the sleep before the next round: backoff[min(attempt, len(backoff)-1)].
unfoldable pub backoff : ℕ → ℕ
backoff zero = 5
backoff (suc zero) = 30
backoff (suc (suc n)) = 300

unfoldable pub new_dlq : Dlq
new_dlq = record { queue = []; attempt = 0; phase = sleeping; rows = [] }

-- The snapshot at the end of the sleep.
wake_asleep : Dlq → List UsageEvent → Dlq
wake_asleep d [] = record d { attempt = 0 }
wake_asleep d (e ∷ rest) = record d { phase = flushing (e ∷ rest) }

unfoldable pub cutoff : List UsageEvent → List UsageEvent → ℕ
cutoff batch queue = min (length batch) (length queue)

-- The next attempt's number, from what the retry left.
unfoldable pub next_attempt : List UsageEvent → ℕ → ℕ
next_attempt [] attempt = 0
next_attempt (_ ∷ _) attempt = min (attempt + 1) (backoffs - 1)

-- The flush of the batch and the merge: the events behind the cutoff are taken for new.
unfoldable pub merge : (ℕ → Bool) → List UsageEvent → Dlq → Dlq
unfolding cutoff next_attempt
merge fails batch d =
    let (failed, written) = flush_batch fails batch in
    record {
      queue = failed ++ drop (cutoff batch d.queue) d.queue;
      attempt = next_attempt failed d.attempt;
      phase = sleeping;
      rows = d.rows ++ written;
    }

pub data Action : Type 0 where
  enqueues : UsageEvent → Action
  wakes : Action
  merges : (ℕ → Bool) → Action

wake : Dlq → Phase → Dlq
unfolding wake_asleep
wake d sleeping = wake_asleep d d.queue
wake d (flushing batch) = d

merge_phase : (ℕ → Bool) → Dlq → Phase → Dlq
merge_phase fails d sleeping = d
merge_phase fails d (flushing batch) = merge fails batch d

-- One step; the retry goroutine takes a step only in the phase that the step belongs to.
unfoldable pub step : Dlq → Action → Dlq
unfolding wake merge_phase
step d (enqueues e) = record d { queue = enqueue d.queue e }
step d wakes = wake d d.phase
step d (merges fails) = merge_phase fails d d.phase

unfoldable pub run : Dlq → List Action → Dlq
run d [] = d
run d (a ∷ rest) = run (step d a) rest
