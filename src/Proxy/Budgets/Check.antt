-- ===== src/Proxy/Budgets/Check.antt =====
-- When a request is refused for its project's budgets.
use airelay.Base.{
  ◌≡◌, refl, ◌↔◌, ◌⊎◌, true, false, not, Option, none, some, List, [], ◌∷◌, Bool-cases, inl, inr,
  arith,
}
use mathlib.Core.Option.{some-injective}
use airelay.Float.{Float64, FloatOps}
use airelay.Time.{Time}
use airelay.Uuid.{Uuid, UuidLib}
use airelay.Models.{Budget}
use airelay.Budget.{spend_key}
use airelay.Proxy.Backend.{Backend}
use airelay.Proxy.Budgets.{
  State, exceeded, get_spend, check_each, check_loaded, load_budgets, check_budgets, call, allowed,
}

module _ ⦃fl : FloatOps⦄ where
  -- Some budget is a hard limit and its own reading, at the same place of the list, reaches it.
  pub data Reached : List Budget → List (Option Float64) → Type 0 where
    here :
        {bg : Budget} {v : Float64} {rest : List Budget} {spends : List (Option Float64)}
        → bg.hard_limit ≡ true
        → fl.le bg.amount_usd v ≡ true
        → Reached (bg ∷ rest) (some v ∷ spends)
    there :
        {bg : Budget} {r : Option Float64} {rest : List Budget} {spends : List (Option Float64)}
        → Reached rest spends
        → Reached (bg ∷ rest) (r ∷ spends)

  Reached-exceeded :
      (bg : Budget) (r : Option Float64) (rest : List Budget) (spends : List (Option Float64))
      → exceeded bg r ≡ true
      → Reached (bg ∷ rest) (r ∷ spends)
  unfolding exceeded
  Reached-exceeded bg none rest spends h = cc
  Reached-exceeded bg (some v) rest spends h = here (ground arith) (ground arith)

  Reached-cons :
      (bg : Budget) (r : Option Float64) (rest : List Budget) (spends : List (Option Float64))
      → Reached (bg ∷ rest) (r ∷ spends)
      → (exceeded bg r ≡ true) ⊎ Reached rest spends
  unfolding exceeded
  Reached-cons bg r rest spends (here h l) = inl (rw (h, l))
  Reached-cons bg r rest spends (there t) = inr t

  not-Reached-nil : (spends : List (Option Float64)) → ¬ Reached [] spends
  not-Reached-nil spends h = elim h [ ]

module _ {W : Type 0} ⦃be : Backend W⦄ ⦃fl : FloatOps⦄ ⦃lib : UuidLib⦄ where
  -- The readings of all the budgets' counters, one behind the other.
  unfoldable pub readings : Uuid → Time → List Budget → State W → List (Option Float64)
  readings project now [] s = []
  readings project now (bg ∷ rest) s =
      let (spend, s') = get_spend (spend_key project bg.period now) project bg.period s in
      spend ∷ readings project now rest s'

  -- The loop refuses exactly if some reading reaches its hard limit, wherever in the list it stands.
  check_each_blocked :
      (project : Uuid) (now : Time) (bgs : List Budget) (s : State W)
      → ((check_each project now bgs s).0.blocked ≡ true) ↔ Reached bgs (readings project now bgs s)
  unfolding check_each readings
  check_each_blocked project now [] s = (λ e. cc, λ r. absurd (not-Reached-nil _ r))
  check_each_blocked project now (bg ∷ rest) s =
      let (spend, s') = get_spend (spend_key project bg.period now) project bg.period s in
      let ih = check_each_blocked project now rest s' in
      elim (Bool-cases (exceeded bg spend)) [
        | inl e ↦ (λ _. Reached-exceeded bg spend rest _ e, λ _. rw e)
        | inr e ↦ (
          λ b. there (ih.0 (rw e at b)),
          λ r. elim (Reached-cons bg spend rest _ r) [ inl e' ↦ cc | inr t ↦ rw e (ih.1 t) ],
        )
      ]

  check_loaded_blocked :
      (project : Uuid) (loaded : Option (List Budget)) (s : State W)
      → let (now, s₃) = call be.now s in
        ((check_loaded project loaded s).0.blocked ≡ true)
        ↔ ((bgs : List Budget) × (loaded ≡ some bgs) × Reached bgs (readings project now bgs s₃))
  unfolding check_loaded
  check_loaded_blocked project none s = (λ e. cc, λ r. cc (r.1))
  check_loaded_blocked project (some bgs) s =
      let (now, s₃) = call be.now s in
      let each = check_each_blocked project now bgs s₃ in
      (λ b. (bgs, refl, each.0 b), λ r. each.1 (rw (← some-injective bgs r.0 r.1) at r.2))

  -- Redis answers the ping, the budgets load, and a reading reaches a hard limit.
  abbrev pub IsOverLimit : Uuid → State W → Type 0
  IsOverLimit project s =
      let (up, s₁) = call be.redis_ping s in
      let (loaded, s₂) = load_budgets project s₁ in
      let (now, s₃) = call be.now s₂ in
      (up ≡ true)
      × (bgs : List Budget) × (loaded ≡ some bgs)
      × Reached bgs (readings project now bgs s₃)

  -- A request is refused exactly if Redis answers the ping, the budgets load, and some counter that
  -- can be read has reached the hard limit of its budget. An outage, a failed query, a counter that
  -- cannot be read and a budget without a hard limit never refuse one.
  pub check_budgets_blocked :
      (project : Uuid) (s : State W)
      → let (up, s₁) = call be.redis_ping s in
        let (loaded, s₂) = load_budgets project s₁ in
        let (now, s₃) = call be.now s₂ in
        ((check_budgets project s).0.blocked ≡ true) ↔ (
          (up ≡ true)
          × (bgs : List Budget) × (loaded ≡ some bgs)
          × Reached bgs (readings project now bgs s₃))
  unfolding check_budgets
  check_budgets_blocked project s = elim (Bool-cases (be.redis_ping s.world).0) [
    | inl up ↦
        let (loaded, s₂) = load_budgets project (call be.redis_ping s).1 in
        let check = check_loaded_blocked project loaded s₂ in
        rw up (
          λ b. let (bgs, e, r) = check.0 b in (refl, bgs, e, r),
          λ (_, bgs, e, r). check.1 (bgs, e, r),
        )
    | inr down ↦ rw down (λ e. cc, λ r. cc (r.0))
  ]

  check_each_up :
      (project : Uuid) (now : Time) (bgs : List Budget) (s : State W)
      → (check_each project now bgs s).0.redis_down ≡ false
  unfolding check_each
  check_each_up project now [] s = refl
  check_each_up project now (bg ∷ rest) s =
      let (spend, s') = get_spend (spend_key project bg.period now) project bg.period s in
      elim (Bool-cases (exceeded bg spend)) [
        | inl e ↦ rw e
        | inr e ↦ rw e (check_each_up project now rest s')
      ]

  check_loaded_up :
      (project : Uuid) (loaded : Option (List Budget)) (s : State W)
      → (check_loaded project loaded s).0.redis_down ≡ false
  unfolding check_loaded
  check_loaded_up project none s = refl
  check_loaded_up project (some bgs) s =
      check_each_up project (be.now s.world).0 bgs (call be.now s).1

  -- With Redis down the check makes no other call, lets the request pass and reports the outage;
  -- with Redis up it never reports one.
  pub check_budgets_redis_down :
      (project : Uuid) (s : State W)
      → ((be.redis_ping s.world).0 ≡ false
          → check_budgets project s ≡ (allowed true, (call be.redis_ping s).1))
        × ((check_budgets project s).0.redis_down ≡ true ↔ (be.redis_ping s.world).0 ≡ false)
  unfolding check_budgets
  check_budgets_redis_down project s = elim (Bool-cases (be.redis_ping s.world).0) [
    | inl up ↦
        let (loaded, s₂) = load_budgets project (call be.redis_ping s).1 in
        let quiet = check_loaded_up project loaded s₂ in rw up (λ e. cc, (λ e. cc, λ e. cc))
    | inr down ↦ rw down (λ _. refl, (λ _. refl, λ _. refl))
  ]

  -- The check reports an outage exactly if Redis does not answer the ping.
  pub redis_down-check_budgets :
      (project : Uuid) (s : State W)
      → (check_budgets project s).0.redis_down ≡ not (be.redis_ping s.world).0
  unfolding check_budgets
  redis_down-check_budgets project s = elim (Bool-cases (be.redis_ping s.world).0) [
    | inl up ↦
        let (loaded, s₂) = load_budgets project (call be.redis_ping s).1 in
        rw up (check_loaded_up project loaded s₂)
    | inr down ↦ rw down refl
  ]
