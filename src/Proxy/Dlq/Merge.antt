-- ===== src/Proxy/Dlq/Merge.antt =====
-- What a retry leaves of the events that were enqueued while it was in flight.
use airelay.Base.{
  ℕ, zero, suc, ◌+◌, ◌-◌, ◌≤◌, min, ◌≡◌, ◌∙◌, sym, ap, refl, Bool, List, [], ◌∷◌, ◌++◌, arith,
  length, drop, length-append, length-drop, append_assoc, Bool-cases, inl, inr, leb,
  drop-length-append, append-nil,
}
use mathlib.Core.List.{Perm, perm_middle}
use mathlib.Core.List.Perm
use airelay.Proxy.Event.{UsageEvent}
use airelay.Proxy.Dlq.{dlq_cap, enqueue, flush_batch, Dlq, merge}
use airelay.Proxy.Dlq.Bounds.{length-enqueue}

unfoldable pub enqueue_all : List UsageEvent → List UsageEvent → List UsageEvent
enqueue_all queue [] = queue
enqueue_all queue (e ∷ es) = enqueue_all (enqueue queue e) es

drop-append_le {ℓ} :
    {A : Type ℓ} (n : ℕ) (xs ys : List A) → n ≤ length xs → drop n (xs ++ ys) ≡ drop n xs ++ ys
drop-append_le zero xs ys h = refl
drop-append_le (suc n) [] ys h = absurd (omega arith)
drop-append_le (suc n) (x ∷ xs) ys h = drop-append_le n xs ys (omega arith)

drop-nil {ℓ} : {A : Type ℓ} (n : ℕ) → drop {A = A} n [] ≡ []
drop-nil zero = refl
drop-nil (suc n) = refl

drop-drop {ℓ} : {A : Type ℓ} (m n k : ℕ) (xs : List A) → n + m ≡ k → drop m (drop n xs) ≡ drop k xs
drop-drop m zero k xs e = ap (λ j. drop j xs) (omega arith)
drop-drop {A} m (suc n) k [] e = drop-nil m ∙ sym (drop-nil k)
drop-drop m (suc n) zero (x ∷ xs) e = absurd (omega arith)
drop-drop m (suc n) (suc k) (x ∷ xs) e = drop-drop m n k xs (omega arith)

-- One enqueue, on either branch, as a drop from the queue with the event behind it.
enqueue_lem :
    (queue : List UsageEvent) (e : UsageEvent)
    → length queue ≤ dlq_cap
    → enqueue queue e ≡ drop (length queue + 1 - dlq_cap) (queue ++ e ∷ [])
unfolding enqueue
enqueue_lem queue e h = elim (Bool-cases (leb dlq_cap (length queue))) [
  | inl full ↦
      let a : length queue ≡ dlq_cap = ground arith in
      let b : 1 ≡ length queue + 1 - dlq_cap = omega arith in
      rw full
        (sym (drop-append_le 1 queue (e ∷ []) (omega arith)) ∙ ap (λ j. drop j (queue ++ e ∷ [])) b)
  | inr room ↦
      let a : 0 ≡ length queue + 1 - dlq_cap = ground arith in
      rw room (ap (λ j. drop j (queue ++ e ∷ [])) a)
]

-- The queue after a run of enqueues: the last `dlq_cap` of its events and the new ones.
enqueue_all_lem :
    (queue es : List UsageEvent)
    → length queue ≤ dlq_cap
    → enqueue_all queue es ≡ drop (length queue + length es - dlq_cap) (queue ++ es)
unfolding enqueue_all
enqueue_all_lem queue [] h =
    let a : 0 ≡ length queue + 0 - dlq_cap = omega arith in rw append-nil (ap (λ j. drop j queue) a)
enqueue_all_lem queue (e ∷ es) h =
    let over = length queue + 1 - dlq_cap in
    let q = enqueue queue e in
    let l = length-append queue (e ∷ []) in
    let d = length-drop over (queue ++ e ∷ []) in
    let c = ap length (enqueue_lem queue e h) in
    let b = length-enqueue queue e h in
    enqueue_all_lem q es b.1
    ∙ ap (λ x. drop (length q + length es - dlq_cap) (x ++ es)) (enqueue_lem queue e h)
    ∙ ap (drop (length q + length es - dlq_cap))
        (sym (drop-append_le over (queue ++ e ∷ []) es (omega arith)))
    ∙ drop-drop (length q + length es - dlq_cap) over (length queue + length (e ∷ es) - dlq_cap) _
        (omega arith)
    ∙ ap (drop (length queue + length (e ∷ es) - dlq_cap)) (append_assoc queue (e ∷ []) es)

-- The queue behind a retry, exactly: what the writes refused, and then the events that were
-- enqueued in flight, less the first of them, one for each place by which they overran the queue.
pub queue-merge :
    (fails : ℕ → Bool) (batch es : List UsageEvent) (d : Dlq)
    → length batch ≤ dlq_cap
    → d.queue ≡ enqueue_all batch es
    → (merge fails batch d).queue
      ≡ (flush_batch fails batch).0 ++ drop (length batch + length es - dlq_cap) es
unfolding merge
queue-merge fails batch es d h e =
    let over = length batch + length es - dlq_cap in
    let q = e ∙ enqueue_all_lem batch es h in
    let a = length-append batch es in
    let l = ap length q in
    let m = length-drop over (batch ++ es) in
    let c : min (length batch) (length d.queue) ≡ length batch = omega arith in
    ap (◌++◌ (flush_batch fails batch).0) (
      ap (λ j. drop j d.queue) c
      ∙ ap (drop (length batch)) q
      ∙ drop-drop (length batch) over (length batch + over) (batch ++ es) (omega arith)
      ∙ sym (drop-drop over (length batch) (length batch + over) (batch ++ es) refl)
      ∙ ap (drop over) (drop-length-append batch es))

-- While the batch and the new events fit in the queue together, a retry loses nothing: it leaves
-- what the writes refused and behind it every new event.
pub merge_keeps_new :
    (fails : ℕ → Bool) (batch es : List UsageEvent) (d : Dlq)
    → length batch + length es ≤ dlq_cap
    → d.queue ≡ enqueue_all batch es
    → (merge fails batch d).queue ≡ (flush_batch fails batch).0 ++ es
merge_keeps_new fails batch es d h e =
    let a : length batch + length es - dlq_cap ≡ 0 = omega arith in
    queue-merge fails batch es d (omega arith) e
    ∙ ap (λ n. (flush_batch fails batch).0 ++ drop n es) a

pub drop_all {ℓ} : {A : Type ℓ} (n : ℕ) (xs : List A) → length xs ≤ n → drop n xs ≡ []
drop_all n [] h = drop-nil n
drop_all zero (x ∷ xs) h = absurd (omega arith)
drop_all (suc n) (x ∷ xs) h = drop_all n xs (omega arith)

-- A retry that snapshots a full queue loses every event that is enqueued in flight, also
-- where all its writes succeed and the queue is left empty.
pub merge_loses_new :
    (fails : ℕ → Bool) (batch es : List UsageEvent) (d : Dlq)
    → length batch ≡ dlq_cap
    → d.queue ≡ enqueue_all batch es
    → (merge fails batch d).queue ≡ (flush_batch fails batch).0
merge_loses_new fails batch es d h e =
    queue-merge fails batch es d (omega arith) e
    ∙ ap (◌++◌ (flush_batch fails batch).0) (drop_all _ es (omega arith))
    ∙ append-nil _

-- Every event of a batch is written or left for the next retry, and none is both.
pub flush_batch-perm :
    (fails : ℕ → Bool) (batch : List UsageEvent)
    → Perm batch ((flush_batch fails batch).1 ++ (flush_batch fails batch).0)
unfolding flush_batch
flush_batch-perm fails [] = Perm.nil
flush_batch-perm fails (e ∷ batch) = elim (Bool-cases (fails 0)) [
  | inl failed ↦ rw failed (
      Perm.trans (Perm.cons e (flush_batch-perm (λ n. fails (suc n)) batch))
        (Perm.symm (perm_middle _ _)))
  | inr written ↦ rw written (Perm.cons e (flush_batch-perm (λ n. fails (suc n)) batch))
]
