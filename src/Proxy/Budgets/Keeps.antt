-- ===== src/Proxy/Budgets/Keeps.antt =====
-- What of the outside world the loading of budgets and the recording of spend leave alone.
use airelay.Base.{ℕ, ◌≡◌, refl, ◌∙◌, Option, none, some, List, Bytes, ltb, Bool-cases, inl, inr}
use airelay.Float.{Float64}
use airelay.Time.{Time, instant}
use airelay.Uuid.{Uuid, UuidLib}
use airelay.Models.{Budget, BudgetPeriod}
use airelay.Budget.{spend_key}
use airelay.Proxy.Backend.{Backend, Ttl, negative, remaining}
use airelay.Proxy.Budgets.{
  State, CachedBudgets, load_budgets, load_cached, reload, fetch_and_store, record_spend,
  expire_new, call,
}

-- A view of the world that neither the clock, nor the query of the budgets, nor the commands on the
-- spend counters change.
pub record KeptBySpend {ℓ} {W : Type 0} (be : Backend W) {V : Type ℓ} (view : W → V) : Type ℓ where
  pub now_keeps : (w : W) → view (be.now w).1 ≡ view w
  pub budgets_keeps : (p : Uuid) (w : W) → view (be.db_budgets p w).1 ≡ view w
  pub incr_keeps :
      (k : Bytes) (c : Float64) (w : W) → view (be.redis_incr_by_float k c w).1 ≡ view w
  pub ttl_keeps : (k : Bytes) (w : W) → view (be.redis_ttl k w).1 ≡ view w
  pub expire_keeps : (k : Bytes) (d : ℕ) (w : W) → view (be.redis_expire k d w) ≡ view w

module _ {ℓ} {W : Type 0} ⦃be : Backend W⦄ {V : Type ℓ} (view : W → V)
    (kept : KeptBySpend be view) where
  fetch_keeps :
      (p : Uuid) (o : Option (List Budget)) (s : State W)
      → view (fetch_and_store p o s).1.world ≡ view s.world
  unfolding fetch_and_store
  fetch_keeps p none s = refl
  fetch_keeps p (some bgs) s = kept.now_keeps s.world

  reload_keeps : (p : Uuid) (s : State W) → view (reload p s).1.world ≡ view s.world
  unfolding reload
  reload_keeps p s =
      fetch_keeps p (be.db_budgets p s.world).0 (call (be.db_budgets p) s).1
      ∙ kept.budgets_keeps p s.world

  load_cached_keeps :
      (p : Uuid) (o : Option CachedBudgets) (s : State W)
      → view (load_cached p o s).1.world ≡ view s.world
  unfolding load_cached
  load_cached_keeps p none s = reload_keeps p s
  load_cached_keeps p (some c) s =
      elim (Bool-cases (ltb (instant (be.now s.world).0) c.expires_at)) [
        | inl e ↦ rw e (kept.now_keeps s.world)
        | inr e ↦ rw e (reload_keeps p (call be.now s).1 ∙ kept.now_keeps s.world)
      ]

  pub load_budgets_keeps : (p : Uuid) (s : State W) → view (load_budgets p s).1.world ≡ view s.world
  unfolding load_budgets
  load_budgets_keeps p s = load_cached_keeps p (s.cache p) s

  expire_new_keeps :
      (k : Bytes) (period : BudgetPeriod) (t : Time) (ttl : Option Ttl) (s : State W)
      → view (expire_new k period t ttl s).1.world ≡ view s.world
  unfolding expire_new
  expire_new_keeps k period t (some negative) s = kept.expire_keeps k _ s.world
  expire_new_keeps k period t (some (remaining _)) s = refl
  expire_new_keeps k period t none s = refl

  module _ ⦃lib : UuidLib⦄ where
    pub record_spend_keeps :
        (p : Uuid) (period : BudgetPeriod) (c : Float64) (s : State W)
        → view (record_spend p period c s).1.world ≡ view s.world
    unfolding record_spend
    record_spend_keeps p period c s =
        let (t, w₁) = be.now s.world in
        let key = spend_key p period t in
        let (added, w₂) = be.redis_incr_by_float key c w₁ in
        let start = kept.incr_keeps key c w₁ ∙ kept.now_keeps s.world in
        elim (Bool-cases added) [
          | inl e ↦ rw e (
              expire_new_keeps key period t (be.redis_ttl key w₂).0
                (record s { world = (be.redis_ttl key w₂).1 })
              ∙ kept.ttl_keeps key w₂
              ∙ start)
          | inr e ↦ rw e start
        ]
