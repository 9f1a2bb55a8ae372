-- ===== src/Proxy/Budgets/Cache.antt =====
-- How old the budgets are that the check works with.
use airelay.Base.{
  ◌+◌, ◌<◌, ◌≤◌, ◌≡◌, refl, none, some, List, ◌==◌, ==_refl, if◌then◌else◌, arith, inl, inr,
  Option-cases,
}
use mathlib.Core.Option.{some-injective}
use airelay.Time.{instant}
use airelay.Uuid.{Uuid}
use airelay.Models.{Budget}
use airelay.Proxy.Backend.{Backend}
use airelay.Proxy.Budgets.{
  State, budget_cache_ttl, reload, load_budgets, invalidate_budget_cache, fetch_and_store,
}

module _ {W : Type 0} ⦃be : Backend W⦄ where
  -- A reload that succeeds caches what it fetched, for two minutes from the clock's reading behind
  -- the query, and leaves the other projects' entries; one that fails leaves the cache alone.
  pub cache-reload :
      (project other : Uuid) (s : State W)
      → let (fetched, w) = be.db_budgets project s.world in
        let (now, _) = be.now w in
        let (result, s') = reload project s in
        (result ≡ fetched)
        × ((bgs : List Budget)
            → fetched ≡ some bgs
            → s'.cache other ≡ (
                if other == project
                then some (record { budgets = bgs; expires_at = instant now + budget_cache_ttl })
                else s.cache other))
        × (fetched ≡ none → s'.cache ≡ s.cache)
  unfolding reload
  cache-reload project other s = elim (Option-cases (be.db_budgets project s.world).0) [
    | inl e ↦ rw (e, fetch_and_store) (refl, λ bgs f. cc, λ _. refl)
    | inr (bgs, e) ↦
        rw (e, fetch_and_store) (refl, λ bgs' f. rw (some-injective bgs bgs' f) refl, λ f. cc)
  ]

  -- Behind a successful fetch at the clock's reading `t`, and whatever happens outside since, a load
  -- gives the fetched budgets until two minutes past `t`, with no query, and queries again from then
  -- on.
  pub load_budgets_again :
      (project : Uuid) (s : State W) (w : W) (bgs : List Budget)
      → (be.db_budgets project s.world).0 ≡ some bgs
      → let (t, _) = be.now (be.db_budgets project s.world).1 in
        let later = record (reload project s).1 { world = w } in
        let (now, w') = be.now w in
        (instant now < instant t + budget_cache_ttl
          → load_budgets project later ≡ (some bgs, record later { world = w' }))
        × (instant t + budget_cache_ttl ≤ instant now
            → load_budgets project later ≡ reload project (record later { world = w' }))
  unfolding reload load_budgets
  load_budgets_again project s w bgs e =
      rw (e, fetch_and_store, ==_refl project) (λ h. ground arith, λ h. ground arith)

  -- After an invalidation the next load queries, whatever was cached.
  pub load-invalidate :
      (project : Uuid) (s : State W)
      → let s' = (invalidate_budget_cache project s).1 in
        load_budgets project s' ≡ reload project s'
  unfolding load_budgets invalidate_budget_cache
  load-invalidate project s = rw (==_refl project)
