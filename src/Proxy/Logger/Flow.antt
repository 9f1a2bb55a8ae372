-- ===== src/Proxy/Logger/Flow.antt =====
-- What becomes of the events that the logger takes.
use airelay.Base.{
  ℕ, suc, ◌+◌, ◌≤◌, ◌<◌, ◌≡◌, refl, ap, ◌∙◌, Bool, true, false, Option, none, some, List, [], ◌∷◌,
  ◌++◌, length, length-append, ltb, leb, if◌then◌else◌, arith, Bool-cases, inl, inr,
}
use airelay.Float.{Float64}
use airelay.Uuid.{Uuid, UuidLib}
use airelay.Models.{Budget}
use airelay.Proxy.Event.{UsageEvent}
use airelay.Proxy.Backend.{Backend}
use airelay.Proxy.Budgets.{State, load_budgets, record_spend}
use airelay.Proxy.Budgets.Keeps.{KeptBySpend, load_budgets_keeps, record_spend_keeps}
use airelay.Proxy.Dlq.{enqueue, dlq_cap}
use airelay.Proxy.Logger.{
  Logger, Action, logs, receives, ticks, channel_cap, batch_cap, log, written, write_usage_event,
  flush_each, flush, receive_from, receive, step, record_event_spend, record_cost, record_loaded,
  record_periods,
}

-- The rows of usage_events. An INSERT that returns no error adds its row. One that returns an error,
-- such as a time-out of its context, has added its row or none: `left_row` says which, and the program
-- does not see it. The other calls of the logger write to no table.
pub record RowLaws {W : Type 0} (be : Backend W) (rows : W → List UsageEvent) : Type 0 where
  pub left_row : UsageEvent → W → Bool
  pub insert_adds :
      (e : UsageEvent) (w : W)
      → (be.db_insert_event e w).0 ≡ true
      → rows (be.db_insert_event e w).1 ≡ rows w ++ e ∷ []
  pub insert_fails :
      (e : UsageEvent) (w : W)
      → (be.db_insert_event e w).0 ≡ false
      → rows (be.db_insert_event e w).1 ≡ (if left_row e w then rows w ++ e ∷ [] else rows w)
  pub kept : KeptBySpend be rows

-- How many events of a list pass a test.
unfoldable pub count_if : (UsageEvent → Bool) → List UsageEvent → ℕ
count_if p [] = 0
count_if p (e ∷ es) = (if p e then 1 else 0) + count_if p es

count_if-append :
    (p : UsageEvent → Bool) (xs ys : List UsageEvent)
    → count_if p (xs ++ ys) ≡ count_if p xs + count_if p ys
unfolding count_if
count_if-append p [] ys = omega arith
count_if-append p (x ∷ xs) ys = omega (arith, count_if-append p xs ys)

-- The event that an action brings into the logger.
abbrev pub accepted : {W : Type 0} → Logger W → Action → List UsageEvent
accepted l (logs e) = if ltb (length l.ch) channel_cap then e ∷ [] else []
accepted l receives = []
accepted l ticks = []

enqueue_room :
    (q : List UsageEvent) (e : UsageEvent) → length q < dlq_cap → enqueue q e ≡ q ++ e ∷ []
unfolding enqueue
enqueue_room q e h = let b : leb dlq_cap (length q) ≡ false = ground arith in rw b

module _ {W : Type 0} ⦃be : Backend W⦄ (rows : W → List UsageEvent) (laws : RowLaws be rows) where
  module _ ⦃lib : UuidLib⦄ where
    record_periods_keeps :
        (p : Uuid) (c : Float64) (bgs : List Budget) (s : State W)
        → rows (record_periods p c bgs s).1.world ≡ rows s.world
    unfolding record_periods
    record_periods_keeps p c [] s = refl
    record_periods_keeps p c (b ∷ rest) s =
        record_periods_keeps p c rest (record_spend p b.period c s).1
        ∙ record_spend_keeps rows laws.kept p b.period c s

    record_loaded_keeps :
        (p : Uuid) (c : Float64) (o : Option (List Budget)) (s : State W)
        → rows (record_loaded p c o s).1.world ≡ rows s.world
    unfolding record_loaded
    record_loaded_keeps p c none s = refl
    record_loaded_keeps p c (some bgs) s = record_periods_keeps p c bgs s

    record_cost_keeps :
        (p : Uuid) (o : Option Float64) (s : State W)
        → rows (record_cost p o s).1.world ≡ rows s.world
    unfolding record_cost
    record_cost_keeps p none s = refl
    record_cost_keeps p (some c) s =
        record_loaded_keeps p c (load_budgets p s).0 (load_budgets p s).1
        ∙ load_budgets_keeps rows laws.kept p s

    record_event_spend_keeps :
        (e : UsageEvent) (s : State W) → rows (record_event_spend e s).1.world ≡ rows s.world
    unfolding record_event_spend
    record_event_spend_keeps e s = record_cost_keeps e.project_id e.cost_usd s

    -- The events that a state of the logger answers for and that pass a test: those in the table,
    -- in the dead letter queue, in the batch and in the channel.
    unfoldable pub total : (UsageEvent → Bool) → Logger W → ℕ
    total p l =
        count_if p (rows l.budgets.world) + count_if p l.dlq + count_if p l.batch + count_if p l.ch

    -- The events of a batch that pass a test, and whose INSERT leaves a row and returns an error: they
    -- are enqueued though they are in the table.
    abbrev twice : (UsageEvent → Bool) → UsageEvent → Bool → Bool → ℕ
    twice p e true left = 0
    twice p e false true = count_if p (e ∷ [])
    twice p e false false = 0

    unfoldable pub doubled : (UsageEvent → Bool) → List UsageEvent → State W → List UsageEvent → ℕ
    unfolding written
    doubled p [] s dlq = 0
    doubled p (e ∷ batch) s dlq =
        let (done, s₁) = write_usage_event e s in
        let (s₂, dlq') = written e done s₁ dlq in
        twice p e done (laws.left_row e s.world) + doubled p batch s₂ dlq'

    doubled_from : (UsageEvent → Bool) → Logger W → List UsageEvent → ℕ
    doubled_from p l [] = 0
    doubled_from p l (e ∷ rest) =
        if leb batch_cap (length (l.batch ++ e ∷ []))
        then doubled p (l.batch ++ e ∷ []) l.budgets l.dlq
        else 0

    -- The same of the batch that an action writes, if it writes one.
    unfoldable pub doubled_in : (UsageEvent → Bool) → Logger W → Action → ℕ
    unfolding doubled_from
    doubled_in p l (logs e) = 0
    doubled_in p l receives = doubled_from p l l.ch
    doubled_in p l ticks = doubled p l.batch l.budgets l.dlq

    written_total :
        (p : UsageEvent → Bool) (e : UsageEvent) (s : State W) (dlq : List UsageEvent)
        → length dlq < dlq_cap
        → let (done, s₁) = write_usage_event e s in
          let (s₂, dlq') = written e done s₁ dlq in
          (count_if p (rows s₂.world) + count_if p dlq'
            ≡ count_if p (rows s.world)
              + count_if p dlq
              + count_if p (e ∷ [])
              + twice p e done (laws.left_row e s.world))
          × (length dlq' ≤ length dlq + 1)
    unfolding write_usage_event written
    written_total p e s dlq h = elim (Bool-cases (be.db_insert_event e s.world).0) [
      | inl done ↦
          let s₁ : State W = record s { world = (be.db_insert_event e s.world).1 } in
          let r = record_event_spend_keeps e s₁ ∙ laws.insert_adds e s.world done in
          let a = ap (count_if p) r in
          let b = count_if-append p (rows s.world) (e ∷ []) in rw done (omega arith, omega arith)
      | inr refused ↦
          let q = enqueue_room dlq e h in
          let b = ap (count_if p) q ∙ count_if-append p dlq (e ∷ []) in
          let c = ap length q ∙ length-append dlq (e ∷ []) in
          let d = count_if-append p (rows s.world) (e ∷ []) in
          let fails = laws.insert_fails e s.world refused in
          elim (Bool-cases (laws.left_row e s.world)) [
            | inl left ↦
                let a = ap (count_if p) (rw left at fails) in
                rw (refused, left) (omega arith, omega arith)
            | inr none_left ↦
                let a = ap (count_if p) (rw none_left at fails) in
                rw (refused, none_left) (omega arith, omega arith)
          ]
    ]

    count_if-cons :
        (p : UsageEvent → Bool) (e : UsageEvent) (es : List UsageEvent)
        → count_if p (e ∷ es) ≡ count_if p (e ∷ []) + count_if p es
    unfolding count_if
    count_if-cons p e es = omega arith

    flush_each_total :
        (p : UsageEvent → Bool) (batch : List UsageEvent) (s : State W) (dlq : List UsageEvent)
        → length dlq + length batch ≤ dlq_cap
        → let (s', dlq') = flush_each batch s dlq in
          count_if p (rows s'.world) + count_if p dlq'
          ≡ count_if p (rows s.world) + count_if p dlq + count_if p batch + doubled p batch s dlq
    unfolding flush_each doubled
    flush_each_total p [] s dlq h = unfold count_if in omega arith
    flush_each_total p (e ∷ batch) s dlq h =
        let (done, s₁) = write_usage_event e s in
        let (s₂, dlq') = written e done s₁ dlq in
        let (one, grown) = written_total p e s dlq (omega arith) in
        let rest = flush_each_total p batch s₂ dlq' (omega arith) in
        let c = count_if-cons p e batch in omega arith

    total-flush :
        (p : UsageEvent → Bool) (l : Logger W)
        → length l.dlq + length l.batch ≤ dlq_cap
        → total p (flush l) ≡ total p l + doubled p l.batch l.budgets l.dlq
    unfolding flush total
    total-flush p l h =
        let a = flush_each_total p l.batch l.budgets l.dlq h in
        let b : count_if p [] ≡ 0 = unfold count_if in refl in omega arith

    receive_total :
        (p : UsageEvent → Bool) (l : Logger W) (ch : List UsageEvent)
        → l.ch ≡ ch
        → length l.dlq + suc (length l.batch) ≤ dlq_cap
        → total p (receive_from l ch) ≡ total p l + doubled_from p l ch
    unfolding receive_from doubled_from
    receive_total p l [] c h = omega arith
    receive_total p l (e ∷ rest) c h =
        let taken : Logger W = record l { ch = rest; batch = l.batch ++ e ∷ [] } in
        let a = length-append l.batch (e ∷ []) in
        let same : total p taken ≡ total p l =
          (let x = count_if-append p l.batch (e ∷ []) in
            let y = count_if-cons p e rest in
            let z = ap (count_if p) c in unfold total in omega arith) in
        elim (Bool-cases (leb batch_cap (length (l.batch ++ e ∷ [])))) [
          | inl full ↦ rw full (let f = total-flush p taken (omega arith) in omega arith)
          | inr room ↦ rw room (omega arith)
        ]

    -- Between the call of `Log` and the table no event is lost: for every test, the number of the events
    -- that pass it, over the table, the dead letter queue, the batch and the channel together, grows
    -- with each step by the event of `Log`, unless the channel is full, and by the events of the
    -- written batch whose INSERT returned an error though it left its row: these are in the table and
    -- the queue, and no others are doubled. That is while the dead letter queue has room for the
    -- batch and one more event.
    pub total-step :
        (p : UsageEvent → Bool) (l : Logger W) (a : Action)
        → length l.dlq + suc (length l.batch) ≤ dlq_cap
        → total p (step l a) ≡ total p l + count_if p (accepted l a) + doubled_in p l a
    unfolding step receive log doubled_in
    total-step p l (logs e) h = elim (Bool-cases (ltb (length l.ch) channel_cap)) [
      | inl room ↦ let a = count_if-append p l.ch (e ∷ []) in rw room (unfold total in omega arith)
      | inr full ↦ let b : count_if p [] ≡ 0 = unfold count_if in refl in rw full (omega arith)
    ]
    total-step p l receives h =
        let b : count_if p [] ≡ 0 = unfold count_if in refl in
        let r = receive_total p l l.ch refl h in omega arith
    total-step p l ticks h =
        let b : count_if p [] ≡ 0 = unfold count_if in refl in
        let r = total-flush p l (omega arith) in omega arith
