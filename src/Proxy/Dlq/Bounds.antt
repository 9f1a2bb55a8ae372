-- ===== src/Proxy/Dlq/Bounds.antt =====
-- The queue stays within its capacity, whatever is enqueued while a retry is in flight.
use airelay.Base.{
  ℕ, suc, ◌+◌, ◌≤◌, min, ◌≡◌, refl, Bool, List, [], ◌∷◌, ◌++◌, arith, length, drop, length-append,
  length-drop,
}
use airelay.Proxy.Event.{UsageEvent}
use airelay.Proxy.Dlq.{
  dlq_cap, enqueue, flush_batch, Phase, sleeping, flushing, Dlq, Action, enqueues, wakes, merges,
  merge, next_attempt, wake, wake_asleep, merge_phase, step, run, new_dlq, cutoff,
}

abbrev pub InFlight : ℕ → Phase → Type 0
InFlight n sleeping = Unit
InFlight n (flushing batch) = length batch ≤ n

pub record IsValid (d : Dlq) : Type 0 where
  pub bounded : length d.queue ≤ dlq_cap
  pub in_flight : InFlight (length d.queue) d.phase
  pub backed_off : d.attempt ≤ 2

pub length-enqueue :
    (q : List UsageEvent) (e : UsageEvent)
    → length q ≤ dlq_cap
    → (length q ≤ length (enqueue q e)) × (length (enqueue q e) ≤ dlq_cap)
unfolding enqueue
length-enqueue q e h =
    ground (arith, length-append q (e ∷ []), length-append (drop 1 q) (e ∷ []), length-drop 1 q)

pub length-flush_batch :
    (fails : ℕ → Bool) (batch : List UsageEvent)
    → length (flush_batch fails batch).0 + length (flush_batch fails batch).1 ≡ length batch
unfolding flush_batch
length-flush_batch fails [] = omega arith
length-flush_batch fails (e ∷ batch) = ground (arith, length-flush_batch (λ n. fails (suc n)) batch)

pub InFlight-mono : (m n : ℕ) (p : Phase) → m ≤ n → InFlight m p → InFlight n p
InFlight-mono m n sleeping h i = tt
InFlight-mono m n (flushing batch) h i = omega arith

pub next_attempt-le : (failed : List UsageEvent) (n : ℕ) → next_attempt failed n ≤ 2
unfolding next_attempt
next_attempt-le [] n = omega arith
next_attempt-le (_ ∷ _) n = omega arith

pub merge-bounded :
    (failed queue : List UsageEvent) (n : ℕ)
    → length failed ≤ n
    → n ≤ length queue
    → length (failed ++ drop (min n (length queue)) queue) ≤ length queue
merge-bounded failed queue n h k = omega (
  arith,
  length-append failed (drop (min n (length queue)) queue),
  length-drop (min n (length queue)) queue,
)

merge-IsValid :
    (fails : ℕ → Bool) (batch : List UsageEvent) (d : Dlq)
    → length batch ≤ length d.queue
    → IsValid d
    → IsValid (merge fails batch d)
unfolding merge
merge-IsValid fails batch d h v =
    let (failed, written) = flush_batch fails batch in
    let l = length-flush_batch fails batch in
    let b = merge-bounded failed d.queue (length batch) (omega arith) h in
    record { bounded = omega arith; in_flight = tt; backed_off = next_attempt-le failed d.attempt }

wake_asleep-IsValid :
    (d : Dlq) (q : List UsageEvent) → d.queue ≡ q → IsValid d → IsValid (wake_asleep d q)
unfolding wake_asleep
wake_asleep-IsValid d [] e v = record {
  bounded = v.bounded;
  in_flight = v.in_flight;
  backed_off = omega arith;
}
wake_asleep-IsValid d (x ∷ rest) e v = record {
  bounded = v.bounded;
  in_flight = rw e (omega arith);
  backed_off = v.backed_off;
}

wake-IsValid : (d : Dlq) (p : Phase) → IsValid d → IsValid (wake d p)
unfolding wake
wake-IsValid d sleeping v = wake_asleep-IsValid d d.queue refl v
wake-IsValid d (flushing batch) v = v

queue-wake_asleep : (d : Dlq) (q : List UsageEvent) → (wake_asleep d q).queue ≡ d.queue
unfolding wake_asleep
queue-wake_asleep d [] = refl
queue-wake_asleep d (_ ∷ _) = refl

queue-wake : (d : Dlq) (p : Phase) → (wake d p).queue ≡ d.queue
unfolding wake
queue-wake d sleeping = queue-wake_asleep d d.queue
queue-wake d (flushing batch) = refl

-- The end of the sleep changes no queue.
pub queue-wakes : (d : Dlq) → (step d wakes).queue ≡ d.queue
unfolding step
queue-wakes d = queue-wake d d.phase

merge_phase-IsValid :
    (fails : ℕ → Bool) (d : Dlq) (p : Phase)
    → InFlight (length d.queue) p
    → IsValid d
    → IsValid (merge_phase fails d p)
unfolding merge_phase
merge_phase-IsValid fails d sleeping i v = v
merge_phase-IsValid fails d (flushing batch) i v = merge-IsValid fails batch d i v

-- Every step keeps the queue within its capacity, a snapshot no longer than the queue, and the
-- number of the attempt within the table of backoffs.
pub step-IsValid : (d : Dlq) (a : Action) → IsValid d → IsValid (step d a)
unfolding step
step-IsValid d (enqueues e) v =
    let (grows, fits) = length-enqueue d.queue e v.bounded in
    record {
      bounded = fits;
      in_flight = InFlight-mono (length d.queue) _ d.phase grows v.in_flight;
      backed_off = v.backed_off;
    }
step-IsValid d wakes v = wake-IsValid d d.phase v
step-IsValid d (merges fails) v = merge_phase-IsValid fails d d.phase v.in_flight v

run_from-IsValid : (d : Dlq) (actions : List Action) → IsValid d → IsValid (run d actions)
unfolding run
run_from-IsValid d [] v = v
run_from-IsValid d (a ∷ rest) v = run_from-IsValid (step d a) rest (step-IsValid d a v)

new_dlq-IsValid : IsValid new_dlq
unfolding new_dlq
new_dlq-IsValid = record { bounded = omega arith; in_flight = tt; backed_off = omega arith }

-- After any sequence of enqueues and retries from the empty queue, the queue holds at most 50,000
-- events and no retry is past the third backoff.
pub run-IsValid : (actions : List Action) → IsValid (run new_dlq actions)
run-IsValid actions = run_from-IsValid new_dlq actions new_dlq-IsValid

-- At the merge the queue is never shorter than the batch, so the cutoff is the batch's length: the
-- guard `min(len(batch), len(d.queue))` has no case to guard against.
pub cutoff-eq-length :
    (actions : List Action) (batch : List UsageEvent)
    → (run new_dlq actions).phase ≡ flushing batch
    → cutoff batch (run new_dlq actions).queue ≡ length batch
unfolding cutoff
cutoff-eq-length actions batch e = let v = rw e at (run-IsValid actions).in_flight in omega arith
