-- ===== src/Proxy/Budgets/Lost.antt =====
-- A counter that Redis has lost, and a cost that is recorded before the counter is read.
use airelay.Base.{
  ℕ, ◌^◌, ◌<◌, ◌≡◌, refl, ap, ◌∙◌, Bool, true, false, ◌&&◌, ◌||◌, Option, none, some, [], ◌∷◌,
  arith, Bytes,
}
use airelay.Float.{Float64, FloatOps}
use airelay.Models.{Budget}
use airelay.Time.{Time, IsTime}
use airelay.Uuid.{Uuid, UuidLib}
use airelay.Budget.{spend_key, spend_key_ttl}
use airelay.Budget.Keys.{Window, by_day, by_month, window_name}
use airelay.Budget.Expiry.{daily_expiry, monthly_expiry}
use airelay.Proxy.Backend.{Backend, found, nil, Ttl, negative, remaining}
use airelay.Proxy.Budgets.{State, record_spend, expire_new, check_budgets, exceeded}
use airelay.Proxy.Budgets.Quiet.{IsSame, IsQuiet, spent_in, sum_of, read_as}
use airelay.Proxy.Budgets.Quiet.Decides.{over_limit, check_budgets-over_limit}

-- What Redis documents of the commands that `record_spend` sends: INCRBYFLOAT starts a missing key
-- at 0 and stores the sum in decimals, so that a GET then gives `stored` of the cost; TTL is a read,
-- and EXPIRE with a positive time changes no value. None of them is seen by Postgres.
pub record RedisLaws {W : Type 0} (be : Backend W) : Type 0 where
  pub stored : Float64 → Float64
  pub incr_missing :
      (key : Bytes) (c : Float64) (w : W)
      → (be.redis_get_float key w).0 ≡ nil
      → (be.redis_incr_by_float key c w).0 ≡ true
      → (be.redis_get_float key (be.redis_incr_by_float key c w).1).0 ≡ found (stored c)
  pub incr_keeps_budgets :
      (key : Bytes) (c : Float64) (w : W) (p : Uuid)
      → (be.db_budgets p (be.redis_incr_by_float key c w).1).0 ≡ (be.db_budgets p w).0
  pub ttl_reads : (key : Bytes) (w : W) → IsSame be w (be.redis_ttl key w).1
  pub expire_keeps : (key : Bytes) (d : ℕ) (w : W) → 0 < d → IsSame be w (be.redis_expire key d w)

spend_key_ttl-pos : (v : Window) (t : Time) → IsTime t → 0 < spend_key_ttl (window_name v) t
spend_key_ttl-pos by_day t h = let e = daily_expiry t h in omega arith
spend_key_ttl-pos by_month t h = let e = monthly_expiry t h in omega arith

or_false : (b c : Bool) → b ≡ true → ((b && c) || false) ≡ c
or_false b true h = rw h refl
or_false b false h = rw h refl

exceeded-one :
    ⦃fl : FloatOps⦄ (bg : Budget) (y : Float64) (o : Option Float64)
    → bg.hard_limit ≡ true
    → o ≡ some y
    → (exceeded bg o || false) ≡ fl.le bg.amount_usd y
unfolding exceeded
exceeded-one ⦃fl = fl⦄ bg y o hard e = rw e (or_false bg.hard_limit (fl.le bg.amount_usd y) hard)

over_limit-one :
    {W : Type 0} ⦃be : Backend W⦄ ⦃fl : FloatOps⦄ ⦃lib : UuidLib⦄ (p : Uuid) (t : Time)
    (bg : Budget) (y : Float64) (w : W)
    → bg.hard_limit ≡ true
    → spent_in p bg.period t w ≡ some y
    → over_limit p t (bg ∷ []) w ≡ fl.le bg.amount_usd y
unfolding over_limit
over_limit-one p t bg y w hard spent = exceeded-one bg y (spent_in p bg.period t w) hard spent

same : {W : Type 0} (be : Backend W) (w : W) → IsSame be w w
same be w = record { counters = λ k. refl; sums = λ p n. refl; budgets = λ p. refl }

module _ {W : Type 0} ⦃be : Backend W⦄ (laws : RedisLaws be) where
  expire_new-IsSame :
      (key : Bytes) (v : Window) (t : Time) (ttl : Option Ttl) (s : State W)
      → IsTime t
      → ((expire_new key (window_name v) t ttl s).1.cache ≡ s.cache)
        × IsSame be s.world (expire_new key (window_name v) t ttl s).1.world
  unfolding expire_new
  expire_new-IsSame key v t (some negative) s h =
      (refl, laws.expire_keeps key _ s.world (spend_key_ttl-pos v t h))
  expire_new-IsSame key v t (some (remaining _)) s h = (refl, same be s.world)
  expire_new-IsSame key v t none s h = (refl, same be s.world)

  module _ ⦃lib : UuidLib⦄ where
    -- What a recorded cost leaves, where the counter is missing.
    record_spend-missing :
        (project : Uuid) (v : Window) (cost : Float64) (s : State W)
        → let (t, w) = be.now s.world in
          let key = spend_key project (window_name v) t in
          let s' = (record_spend project (window_name v) cost s).1 in
          IsTime t
          → (be.redis_get_float key w).0 ≡ nil
          → (be.redis_incr_by_float key cost w).0 ≡ true
          → (s'.cache ≡ s.cache)
            × ((be.redis_get_float key s'.world).0 ≡ found (laws.stored cost))
            × ((be.db_budgets project s'.world).0 ≡ (be.db_budgets project w).0)
    unfolding record_spend
    record_spend-missing project v cost s h missing added =
        let (t, w) = be.now s.world in
        let key = spend_key project (window_name v) t in
        let w' = (be.redis_incr_by_float key cost w).1 in
        let s₁ : State W = record s { world = (be.redis_ttl key w').1 } in
        let read = laws.ttl_reads key w' in
        let (cache, kept) = expire_new-IsSame key v t (be.redis_ttl key w').0 s₁ h in
        rw added (
          cache,
          kept.counters key ∙ read.counters key ∙ laws.incr_missing key cost w missing added,
          kept.budgets project ∙ read.budgets project ∙ laws.incr_keeps_budgets key cost w project,
        )

  module _ ⦃fl : FloatOps⦄ ⦃lib : UuidLib⦄ where
    -- A project has a hard limit, Postgres has the sum of what it has spent in the period, Redis has no
    -- counter for it, no one else writes and the clock stays in one day. A check then refuses exactly
    -- if the sum reaches the limit. But where a cost is recorded before any check, the check behind it
    -- refuses exactly if that cost alone, as Redis stores it, reaches the limit: what was spent
    -- before is forgotten.
    pub check_budgets-record_spend :
        (p : Uuid) (v : Window) (bg : Budget) (sum cost : Float64) (s : State W)
        → let (t, w) = be.now s.world in
          let s' = (record_spend p (window_name v) cost s).1 in
          IsQuiet be t
          → p < 2 ^ 128
          → IsTime t
          → bg.period ≡ window_name v
          → bg.hard_limit ≡ true
          → s.cache p ≡ none
          → (be.db_budgets p s.world).0 ≡ some (bg ∷ [])
          → sum_of p (window_name v) t s.world ≡ some sum
          → (be.redis_get_float (spend_key p (window_name v) t) s.world).0 ≡ nil
          → (be.redis_incr_by_float (spend_key p (window_name v) t) cost w).0 ≡ true
          → (be.redis_ping s.world).0 ≡ true
          → (be.redis_ping s'.world).0 ≡ true
          → ((check_budgets p s).0.blocked ≡ fl.le bg.amount_usd sum)
            × ((check_budgets p s').0.blocked ≡ fl.le bg.amount_usd (laws.stored cost))
    unfolding spent_in read_as
    check_budgets-record_spend p v bg sum cost s quiet bound time period hard fresh rows sums
          missing added up up' =
        let (t, w) = be.now s.world in
        let s' = (record_spend p (window_name v) cost s).1 in
        let reads = quiet.now_reads s.world in
        let (cache, counter, budgets) =
          record_spend-missing p v cost s time (reads.counters _ ∙ missing) added in
        let before : spent_in p bg.period t s.world ≡ some sum = rw (period, missing, sums) refl in
        let behind : spent_in p bg.period t s'.world ≡ some (laws.stored cost) =
          rw (period, counter) refl in
        (
          check_budgets-over_limit p t quiet bound time (bg ∷ []) s fresh up rows ((v, period), tt)
              ∙ over_limit-one p t bg sum s.world hard before,
          check_budgets-over_limit p t quiet bound time (bg ∷ []) s' (ap (λ c. c p) cache ∙ fresh)
                up' (budgets ∙ reads.budgets p ∙ rows) ((v, period), tt)
              ∙ over_limit-one p t bg (laws.stored cost) s'.world hard behind,
        )
