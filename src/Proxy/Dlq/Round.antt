-- ===== src/Proxy/Dlq/Round.antt =====
-- One round of the retry loop with the calls of `Enqueue` that fall into it.
use airelay.Base.{
  ℕ, ◌+◌, ◌-◌, ◌≤◌, ◌≡◌, refl, ap, ◌∙◌, Bool, List, [], ◌∷◌, ◌++◌, map, length, drop,
}
use airelay.Proxy.Event.{UsageEvent}
use airelay.Proxy.Dlq.{
  Dlq, dlq_cap, enqueue, flush_batch, merge, flushing, sleeping, Action, enqueues, wakes, merges,
  wake, wake_asleep, merge_phase, step, run,
}
use airelay.Proxy.Dlq.Merge.{enqueue_all, queue-merge}

run-append : (d : Dlq) (xs ys : List Action) → run d (xs ++ ys) ≡ run (run d xs) ys
unfolding run
run-append d [] ys = refl
run-append d (a ∷ xs) ys = run-append (step d a) xs ys

run-enqueues :
    (d : Dlq) (es : List UsageEvent)
    → run d (map enqueues es) ≡ record d { queue = enqueue_all d.queue es }
unfolding run step enqueue_all
run-enqueues d [] = refl
run-enqueues d (e ∷ es) = run-enqueues (record d { queue = enqueue d.queue e }) es

step-wakes :
    (d : Dlq) (e : UsageEvent) (rest : List UsageEvent)
    → d.phase ≡ sleeping
    → d.queue ≡ e ∷ rest
    → step d wakes ≡ record d { phase = flushing (e ∷ rest) }
unfolding step wake wake_asleep
step-wakes d e rest h q = rw (h, q) refl

run-round :
    (fails : ℕ → Bool) (es : List UsageEvent) (d : Dlq) (e : UsageEvent) (rest : List UsageEvent)
    → d.phase ≡ sleeping
    → d.queue ≡ e ∷ rest
    → run d (wakes ∷ (map enqueues es ++ merges fails ∷ []))
      ≡ merge fails
          (e ∷ rest)
          (record d { queue = enqueue_all d.queue es; phase = flushing (e ∷ rest) })
unfolding run step merge_phase
run-round fails es d e rest h q =
    let woken : Dlq = record d { phase = flushing (e ∷ rest) } in
    ap (λ x. run x (map enqueues es ++ merges fails ∷ [])) (step-wakes d e rest h q)
    ∙ run-append woken (map enqueues es) (merges fails ∷ [])
    ∙ ap (λ x. run x (merges fails ∷ [])) (run-enqueues woken es)

-- A round of the retry goroutine, from its sleep with a queue that is not empty, through its
-- snapshot, any calls of `Enqueue` and its merge: the queue is then what the writes refused and,
-- behind it, the new events less the first of them, one for each by which they overran the queue; the
-- table has what the writes took; the goroutine sleeps again.
pub retry_round :
    (fails : ℕ → Bool) (es : List UsageEvent) (d : Dlq) (e : UsageEvent) (rest : List UsageEvent)
    → d.phase ≡ sleeping
    → d.queue ≡ e ∷ rest
    → length (e ∷ rest) ≤ dlq_cap
    → let batch = e ∷ rest in
      let d' = run d (wakes ∷ (map enqueues es ++ merges fails ∷ [])) in
      (d'.queue ≡ (flush_batch fails batch).0 ++ drop (length batch + length es - dlq_cap) es)
      × (d'.rows ≡ d.rows ++ (flush_batch fails batch).1)
      × (d'.phase ≡ sleeping)
retry_round fails es d e rest h q le =
    let batch = e ∷ rest in
    let there : Dlq = record d { queue = enqueue_all d.queue es; phase = flushing batch } in
    let round = run-round fails es d e rest h q in
    (
      ap Dlq.queue round ∙ queue-merge fails batch es there le (ap (λ x. enqueue_all x es) q),
      ap Dlq.rows round ∙ unfold merge in refl,
      ap Dlq.phase round ∙ unfold merge in refl,
    )
