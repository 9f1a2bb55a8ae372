-- ===== src/Proxy/Budgets/Quiet/Decides.antt =====
-- The check of the budgets as a function of what each project has spent.
use airelay.Base.{
  ℕ, ◌^◌, ◌<◌, ◌≡◌, refl, sym, ◌∙◌, inl, inr, Bool, true, Option, none, some, List, [], ◌∷◌, Bytes,
  any, All, Bool-cases,
}
use airelay.Float.{Float64, FloatOps}
use airelay.Time.{Time, IsTime, date}
use airelay.Uuid.{Uuid, UuidLib}
use airelay.Models.{Budget}
use airelay.Budget.{spend_key, spend_key_ttl}
use airelay.Budget.Keys.{Window, by_day, by_month, window_name}
use airelay.Proxy.Backend.{Backend, Get, found, nil, failed}
use airelay.Proxy.Budgets.{
  State, period_start, exceeded, get_spend, spend_of_get, rebuild_from_db, sum_since, keep_rebuilt,
  check_each, check_loaded, check_budgets, load_budgets, load_cached, reload, fetch_and_store,
}
use airelay.Proxy.Budgets.Quiet.{
  SameDay, IsSame, IsQuiet, period_start_same, spend_key_same, Get-cases, spent_in, spent_in-IsSame,
  spent_in-set, read_as, sum_of, sum_from-same,
}

module _ {W : Type 0} ⦃be : Backend W⦄ where
  pub IsSame-trans : (u v w : W) → IsSame be u v → IsSame be v w → IsSame be u w
  IsSame-trans u v w a b = record {
    counters = λ k. b.counters k ∙ a.counters k;
    sums = λ p n. b.sums p n ∙ a.sums p n;
    budgets = λ p. b.budgets p ∙ a.budgets p;
  }

period_start_of : (v : Window) (t : Time) → (a : ℕ) × (period_start (window_name v) t ≡ some a)
unfolding period_start
period_start_of by_day t = (date t.year t.month t.day, refl)
period_start_of by_month t = (date t.year t.month 1, refl)

module _ {W : Type 0} ⦃be : Backend W⦄ ⦃lib : UuidLib⦄ (p : Uuid) (t : Time) (quiet : IsQuiet be t)
    (bound : p < 2 ^ 128) (time : IsTime t) where
  -- A reading of a counter is what the project has spent, and changes no spend.
  abbrev IsReading : Window → State W → Option Float64 × State W → Type 0
  IsReading v s (r, s') =
      (r ≡ spent_in p (window_name v) t s.world)
      × ((u : Window)
          → spent_in p (window_name u) t s'.world ≡ spent_in p (window_name u) t s.world)

  spent_in-read :
      (v : Window) (w : W) (g : Get Float64)
      → (be.redis_get_float (spend_key p (window_name v) t) w).0 ≡ g
      → spent_in p (window_name v) t w ≡ read_as (sum_of p (window_name v) t w) g
  unfolding spent_in
  spent_in-read v w g e = rw e refl

  keep_rebuilt-IsReading :
      (v : Window) (w : W) (s : State W)
      → IsSame be w s.world
      → (be.redis_get_float (spend_key p (window_name v) t) w).0 ≡ nil
      → (o : Option Float64) → sum_of p (window_name v) t w ≡ o
      → IsReading v
          (record s { world = w })
          (keep_rebuilt (spend_key p (window_name v) t) (window_name v) o s)
  unfolding keep_rebuilt spent_in
  keep_rebuilt-IsReading v w s same missing none e =
      (rw (missing, e) refl, λ u. spent_in-IsSame p (window_name u) t w s.world same)
  keep_rebuilt-IsReading v w s same missing (some x) e =
      let w₁ = (be.now s.world).1 in
      let all = IsSame-trans w s.world w₁ same (quiet.now_reads s.world) in
      let missing₁ = all.counters (spend_key p (window_name v) t) ∙ missing in
      let sum₁ : sum_of p (window_name v) t w₁ ≡ some x = sum_from-same _ _ _ (all.sums p) ∙ e in
      (
        rw (missing, e) refl,
        λ u.
            spent_in-set p v u t (spend_key_ttl (window_name v) (be.now s.world).0) x w₁ quiet bound
              time missing₁ sum₁
            ∙ spent_in-IsSame p (window_name u) t w w₁ all,
      )

  get_spend-IsReading :
      (v : Window) (s : State W)
      → IsReading v s (get_spend (spend_key p (window_name v) t) p (window_name v) s)
  unfolding get_spend spend_of_get rebuild_from_db sum_since read_as
  get_spend-IsReading v s =
      let key = spend_key p (window_name v) t in
      let (a, start) = period_start_of v t in
      let w₁ = (be.redis_get_float key s.world).1 in
      let (now, w₂) = be.now w₁ in
      let w₃ = (be.db_spend_since p a w₂).1 in
      let same₁ = quiet.get_reads key s.world in
      let same₂ = IsSame-trans s.world w₁ w₂ same₁ (quiet.now_reads w₁) in
      let same₃ = IsSame-trans s.world w₂ w₃ same₂ (quiet.sum_reads p a w₂) in
      let kept : (u : Window)
          → spent_in p (window_name u) t w₁ ≡ spent_in p (window_name u) t s.world =
        λ u. spent_in-IsSame p (window_name u) t s.world w₁ same₁ in
      elim (Get-cases (be.redis_get_float key s.world).0) [
        | inl (x, e) ↦ rw e (sym (spent_in-read v s.world (found x) e), kept)
        | inr (inl e) ↦
            let summed : sum_of p (window_name v) t s.world ≡ (be.db_spend_since p a w₂).0 =
              rw start (sym (same₂.sums p a)) in
            rw (e, period_start_same (window_name v) now t (quiet.same_day w₁), start)
              (keep_rebuilt-IsReading v s.world (record s { world = w₃ }) same₃ e
                (be.db_spend_since p a w₂).0 summed)
        | inr (inr e) ↦ rw e (sym (spent_in-read v s.world failed e), kept)
      ]

-- The period of a budget is one of the two that the table allows.
abbrev pub HasPeriod : Budget → Type 0
HasPeriod bg = (v : Window) × (bg.period ≡ window_name v)

module _ {W : Type 0} ⦃be : Backend W⦄ ⦃fl : FloatOps⦄ ⦃lib : UuidLib⦄ (p : Uuid) (t : Time) where
  -- Some hard limit is not above what the project has spent in its period.
  unfoldable pub over_limit : List Budget → W → Bool
  over_limit bgs w = any (λ bg. exceeded bg (spent_in p bg.period t w)) bgs

  module _ (quiet : IsQuiet be t) (bound : p < 2 ^ 128) (time : IsTime t) where
    reading_of :
        (now : Time) (x : Bytes) (v : Window) (s : State W)
        → SameDay now t
        → x ≡ window_name v
        → let (r, s') = get_spend (spend_key p x now) p x s in
          (r ≡ spent_in p x t s.world)
          × ((u : Window)
              → spent_in p (window_name u) t s'.world ≡ spent_in p (window_name u) t s.world)
    reading_of now x v s day e =
        rw (spend_key_same p x now t day, e) (get_spend-IsReading p t quiet bound time v s)

    over_limit-same :
        (bgs : List Budget) (w w' : W)
        → All HasPeriod bgs
        → ((u : Window) → spent_in p (window_name u) t w' ≡ spent_in p (window_name u) t w)
        → over_limit bgs w' ≡ over_limit bgs w
    unfolding over_limit
    over_limit-same [] w w' h same = refl
    over_limit-same (bg ∷ bgs) w w' ((v, e), hs) same =
        let head : spent_in p bg.period t w' ≡ spent_in p bg.period t w = rw e (same v) in
        rw (head, over_limit-same bgs w w' hs same) refl

    check_each-over_limit :
        (now : Time) (bgs : List Budget) (s : State W)
        → SameDay now t
        → All HasPeriod bgs
        → (check_each p now bgs s).0.blocked ≡ over_limit bgs s.world
    unfolding check_each over_limit
    check_each-over_limit now [] s day h = refl
    check_each-over_limit now (bg ∷ bgs) s day ((v, e), hs) =
        let (r, s') = get_spend (spend_key p bg.period now) p bg.period s in
        let (read, same) = reading_of now bg.period v s day e in
        let rest =
          check_each-over_limit now bgs s' day hs ∙ over_limit-same bgs s.world s'.world hs same in
        elim (Bool-cases (exceeded bg r)) [
          | inl f ↦ rw (← read, f) refl
          | inr f ↦ rw (← read, f) rest
        ]

    -- While no one else writes and the day of the clock stays the same, a proxy that has no cached
    -- budgets of a project refuses its request exactly if a hard limit of one of the project's
    -- budgets in Postgres is not above what the project has spent in its period: the counter in
    -- Redis, or the sum in Postgres where there is no counter. The order of the budgets does not matter,
    -- and neither do the counters that the check itself rebuilds on its way.
    pub check_budgets-over_limit :
        (bgs : List Budget) (s : State W)
        → s.cache p ≡ none
        → (be.redis_ping s.world).0 ≡ true
        → (be.db_budgets p s.world).0 ≡ some bgs
        → All HasPeriod bgs
        → (check_budgets p s).0.blocked ≡ over_limit bgs s.world
    unfolding check_budgets load_budgets load_cached reload fetch_and_store check_loaded
    check_budgets-over_limit bgs s fresh up rows h =
        let (_, w₁) = be.redis_ping s.world in
        let (_, w₂) = be.db_budgets p w₁ in
        let (_, w₃) = be.now w₂ in
        let (now, w₄) = be.now w₃ in
        let same₁ = quiet.ping_reads s.world in
        let same₂ = IsSame-trans s.world w₁ w₂ same₁ (quiet.budgets_reads p w₁) in
        let same₃ = IsSame-trans s.world w₂ w₃ same₂ (quiet.now_reads w₂) in
        let same₄ = IsSame-trans s.world w₃ w₄ same₃ (quiet.now_reads w₃) in
        rw (up, fresh, same₁.budgets p ∙ rows)
          (check_each-over_limit now bgs _ (quiet.same_day w₃) h
            ∙ over_limit-same bgs s.world w₄ h
                (λ u. spent_in-IsSame p (window_name u) t s.world w₄ same₄))
