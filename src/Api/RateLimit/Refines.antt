-- ===== src/Api/RateLimit/Refines.antt =====
-- The sweep of the visitors cannot be seen from outside.
use airelay.Base.{
  ℕ, ◌+◌, ◌-◌, ◌*◌, ◌≤◌, ◌≡◌, inl, inr, refl, sym, ap, ◌∙◌, Bool, Option, none, some, List, [], ◌∷◌,
  Bytes, bytes_eq, ltb, Bool-cases, arith,
}
use airelay.Api.RateLimit.{
  Limiting, Entry, Visitors, Event, requests, sweeps, put, limiter_in, visit, evict, sweep,
  decisions,
}

-- A token bucket that no one has asked for the time of a refill is full, as a new one is: rate and
-- burst of the routes refill it in a minute.
pub record Refills {L : Type 0} (lim : Limiting L) (refill : ℕ) : Type 0 where
  pub refilled :
      (l : L) (t t' : ℕ) → t + refill ≤ t' → lim.allow t' (lim.allow t l).1 ≡ lim.allow t' lim.fresh

-- The abstract limiter: every address keeps its limiter for ever.
module _ {L : Type 0} ⦃lim : Limiting L⦄ where
  unfoldable pub ideal : List Event → Visitors L → List Bool
  ideal [] v = []
  ideal (requests ip now ∷ rest) v = let (allowed, v') = visit ip now v in allowed ∷ ideal rest v'
  ideal (sweeps now ∷ rest) v = ideal rest v

-- The clock does not run back.
abbrev pub Ordered : ℕ → List Event → Type 0
Ordered t [] = Unit
Ordered t (requests ip now ∷ rest) = (t ≤ now) × Ordered now rest
Ordered t (sweeps now ∷ rest) = (t ≤ now) × Ordered now rest

abbrev pub no_visitors {ℓ} : {A : Type ℓ} → Bytes → Option A
no_visitors _ = none

module _ {L : Type 0} ⦃lim : Limiting L⦄ (interval refill : ℕ) where
  -- An entry's limiter was last asked when its address was last seen.
  abbrev pub Used : Entry L → Type 0
  Used e = (l : L) × (e.limiter ≡ (lim.allow e.last_seen l).1)

  -- An address has one entry on both sides, or the swept side has forgotten one that is full.
  pub data Agree (t : ℕ) : Option (Entry L) → Option (Entry L) → Type 0 where
    unseen : Agree t none none
    same : (e : Entry L) → Used e → Agree t (some e) (some e)
    forgotten : (e : Entry L) → Used e → e.last_seen + refill ≤ t → Agree t none (some e)

  pub Agree-later : {v a : Option (Entry L)} (t t' : ℕ) → t ≤ t' → Agree t v a → Agree t' v a
  Agree-later t t' h unseen = unseen
  Agree-later t t' h (same e u) = same e u
  Agree-later t t' h (forgotten e u k) = forgotten e u (omega arith)

  pub evict-Agree :
      {v a : Option (Entry L)} (t now : ℕ)
      → refill ≤ 2 * interval
      → t ≤ now
      → Agree t v a
      → Agree now (evict (now - 2 * interval) v) a
  unfolding evict
  evict-Agree t now r h unseen = unseen
  evict-Agree t now r h (same e u) = elim (Bool-cases (ltb e.last_seen (now - 2 * interval))) [
    | inl stale ↦ rw stale (forgotten e u (ground arith))
    | inr recent ↦ rw recent (same e u)
  ]
  evict-Agree t now r h (forgotten e u k) = forgotten e u (omega arith)

  pub allow-Agree :
      {v a : Option (Entry L)} (t now : ℕ)
      → Refills lim refill
      → t ≤ now
      → Agree t v a
      → lim.allow now (limiter_in v) ≡ lim.allow now (limiter_in a)
  unfolding limiter_in
  allow-Agree t now laws h unseen = refl
  allow-Agree t now laws h (same e u) = refl
  allow-Agree t now laws h (forgotten e (l, u) k) =
      sym (ap (lim.allow now) u ∙ laws.refilled l e.last_seen now (omega arith))

  pub put-Agree :
      (ip k : Bytes) (t : ℕ) (e : Entry L) (v a : Visitors L)
      → Used e
      → Agree t (v k) (a k)
      → Agree t (put ip (some e) v k) (put ip (some e) a k)
  put-Agree ip k t e v a u h = elim (Bool-cases (bytes_eq k ip)) [
    | inl b ↦ rw b (same e u)
    | inr b ↦ rw b h
  ]

  decisions-eq-ideal_from :
      (events : List Event) (t : ℕ) (v a : Visitors L)
      → Refills lim refill
      → refill ≤ 2 * interval
      → Ordered t events
      → ((ip : Bytes) → Agree t (v ip) (a ip))
      → decisions interval events v ≡ ideal events a
  unfolding decisions ideal visit sweep
  decisions-eq-ideal_from [] t v a laws r o h = refl
  decisions-eq-ideal_from (requests ip now ∷ rest) t v a laws r (le, o) h =
      let same_answer = allow-Agree t now laws le (h ip) in
      let e : Entry L = record {
        limiter = (lim.allow now (limiter_in (a ip))).1;
        last_seen = now;
      } in
      rw same_answer (
        ap (◌∷◌ (lim.allow now (limiter_in (a ip))).0) (
          decisions-eq-ideal_from rest now (put ip (some e) v) (put ip (some e) a) laws r o
            (λ k. put-Agree ip k now e v a (limiter_in (a ip), refl) (Agree-later t now le (h k)))))
  decisions-eq-ideal_from (sweeps now ∷ rest) t v a laws r (le, o) h =
      decisions-eq-ideal_from rest now (sweep interval now v) a laws r o
        (λ k. evict-Agree t now r le (h k))

  -- If a limiter is full again after two intervals without a request, the middleware answers every
  -- sequence of requests and sweeps, in the order of the clock, as one that keeps each address's
  -- limiter for ever: the sweep frees memory and lets no one exceed the rate.
  pub decisions_refine :
      (events : List Event) (t : ℕ)
      → Refills lim refill
      → refill ≤ 2 * interval
      → Ordered t events
      → decisions {L = L} interval events no_visitors ≡ ideal {L = L} events no_visitors
  decisions_refine events t laws r o =
      decisions-eq-ideal_from events t no_visitors no_visitors laws r o (λ ip. unseen)
