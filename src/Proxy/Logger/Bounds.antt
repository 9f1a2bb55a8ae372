-- ===== src/Proxy/Logger/Bounds.antt =====
-- How much the logger holds.
use airelay.Base.{
  ◌≤◌, ◌<◌, Bool, true, false, List, [], ◌∷◌, ◌++◌, length, length-append, leb, arith, Bool-cases,
  inl, inr,
}
use airelay.Uuid.{UuidLib}
use airelay.Proxy.Event.{UsageEvent}
use airelay.Proxy.Backend.{Backend}
use airelay.Proxy.Budgets.{State}
use airelay.Proxy.Dlq.{dlq_cap}
use airelay.Proxy.Dlq.Bounds.{length-enqueue}
use airelay.Proxy.Logger.{
  Logger, Action, logs, receives, ticks, channel_cap, batch_cap, log, written, write_usage_event,
  flush_each, flush, receive_from, receive, step, run,
}

pub record IsValid {W : Type 0} (l : Logger W) : Type 0 where
  pub channel_le : length l.ch ≤ channel_cap
  pub batch_lt : length l.batch < batch_cap
  pub dlq_le : length l.dlq ≤ dlq_cap

module _ {W : Type 0} ⦃be : Backend W⦄ ⦃lib : UuidLib⦄ where
  written-dlq_le :
      (e : UsageEvent) (done : Bool) (s : State W) (dlq : List UsageEvent)
      → length dlq ≤ dlq_cap
      → length (written e done s dlq).1 ≤ dlq_cap
  unfolding written
  written-dlq_le e true s dlq h = h
  written-dlq_le e false s dlq h = (length-enqueue dlq e h).1

  flush_each-dlq_le :
      (batch : List UsageEvent) (s : State W) (dlq : List UsageEvent)
      → length dlq ≤ dlq_cap
      → length (flush_each batch s dlq).1 ≤ dlq_cap
  unfolding flush_each
  flush_each-dlq_le [] s dlq h = h
  flush_each-dlq_le (e ∷ batch) s dlq h =
      let (done, s₁) = write_usage_event e s in
      let (s₂, dlq') = written e done s₁ dlq in
      flush_each-dlq_le batch s₂ dlq' (written-dlq_le e done s₁ dlq h)

  flush-IsValid :
      (l : Logger W) → length l.ch ≤ channel_cap → length l.dlq ≤ dlq_cap → IsValid (flush l)
  unfolding flush
  flush-IsValid l h k = record {
    channel_le = h;
    batch_lt = omega arith;
    dlq_le = flush_each-dlq_le l.batch l.budgets l.dlq k;
  }

  receive_from-IsValid :
      (l : Logger W) (ch : List UsageEvent)
      → length ch ≤ channel_cap
      → IsValid l
      → IsValid (receive_from l ch)
  unfolding receive_from
  receive_from-IsValid l [] h v = v
  receive_from-IsValid l (e ∷ rest) h v =
      let taken : Logger W = record l { ch = rest; batch = l.batch ++ e ∷ [] } in
      elim (Bool-cases (leb batch_cap (length (l.batch ++ e ∷ [])))) [
        | inl full ↦ rw full (flush-IsValid taken (omega arith) v.dlq_le)
        | inr room ↦
            rw room
              (record { channel_le = omega arith; batch_lt = ground arith; dlq_le = v.dlq_le })
      ]

  log-IsValid : (l : Logger W) (e : UsageEvent) → IsValid l → IsValid (log l e)
  unfolding log
  log-IsValid l e v = ground (arith, length-append l.ch (e ∷ []))

  -- Every step keeps the channel within 50,000 events, the batch under 100, so that a flush writes
  -- at most 100 events, and the dead letter queue within 50,000.
  pub step-IsValid : (l : Logger W) (a : Action) → IsValid l → IsValid (step l a)
  unfolding step receive
  step-IsValid l (logs e) v = log-IsValid l e v
  step-IsValid l receives v = receive_from-IsValid l l.ch v.channel_le v
  step-IsValid l ticks v = flush-IsValid l v.channel_le v.dlq_le

  pub run-IsValid : (l : Logger W) (actions : List Action) → IsValid l → IsValid (run l actions)
  unfolding run
  run-IsValid l [] v = v
  run-IsValid l (a ∷ rest) v = run-IsValid (step l a) rest (step-IsValid l a v)

module _ {W : Type 0} ⦃be : Backend W⦄ ⦃lib : UuidLib⦄ where
  written-grows :
      (e : UsageEvent) (done : Bool) (s : State W) (dlq : List UsageEvent)
      → length dlq ≤ dlq_cap
      → (length dlq ≤ length (written e done s dlq).1) × (length (written e done s dlq).1 ≤ dlq_cap)
  unfolding written
  written-grows e true s dlq h = (omega arith, h)
  written-grows e false s dlq h = length-enqueue dlq e h

  flush_each-grows :
      (batch : List UsageEvent) (s : State W) (dlq : List UsageEvent)
      → length dlq ≤ dlq_cap
      → length dlq ≤ length (flush_each batch s dlq).1
  unfolding flush_each
  flush_each-grows [] s dlq h = omega arith
  flush_each-grows (e ∷ batch) s dlq h =
      let (done, s₁) = write_usage_event e s in
      let (s₂, dlq') = written e done s₁ dlq in
      let (grows, fits) = written-grows e done s₁ dlq h in
      omega (arith, flush_each-grows batch s₂ dlq' fits)

  pub flush-grows : (l : Logger W) → length l.dlq ≤ dlq_cap → length l.dlq ≤ length (flush l).dlq
  unfolding flush
  flush-grows l h = flush_each-grows l.batch l.budgets l.dlq h

  receive_from-grows :
      (l : Logger W) (ch : List UsageEvent)
      → length l.dlq ≤ dlq_cap
      → length l.dlq ≤ length (receive_from l ch).dlq
  unfolding receive_from flush
  receive_from-grows l [] h = omega arith
  receive_from-grows l (e ∷ rest) h =
      elim (Bool-cases (leb batch_cap (length (l.batch ++ e ∷ [])))) [
        | inl full ↦ rw full (flush_each-grows (l.batch ++ e ∷ []) l.budgets l.dlq h)
        | inr room ↦ rw room (omega arith)
      ]

  pub receive-grows :
      (l : Logger W) → length l.dlq ≤ dlq_cap → length l.dlq ≤ length (receive l).dlq
  unfolding receive
  receive-grows l h = receive_from-grows l l.ch h
