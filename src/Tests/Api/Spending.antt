-- ===== src/Tests/Api/Spending.antt =====
-- The theorems on budgets, from the API to the check of the proxy, at concrete inputs.
use airelay.Base.{ℕ, ◌≡◌, refl, true, ◌||◌, some, [], ◌∷◌, arith}
use airelay.Models.{period_daily}
use airelay.Budget.Keys.{by_day}
use airelay.Proxy.Backend.{Backend}
use airelay.Proxy.Budgets.{check_budgets}
use airelay.Proxy.Budgets.Quiet.{IsQuiet, IsSame, spent_in}
use airelay.Proxy.Budgets.Quiet.Decides.{over_limit}
use airelay.Api.Http.{Reply, Request, no_content}
use airelay.Api.Db.{Db, Store, next}
use airelay.Api.Projects.{owned}
use airelay.Api.Auth.{claims_at}
use airelay.Api.Budgets.{upsert_budget, delete_budget}
use airelay.Api.Lifecycle.Limited.{budgets_of, other_budgets, reached, upsert_budget-check_budgets}
use airelay.Api.Lifecycle.Lifted.{left_budgets, delete_budget-check_budgets}
use airelay.Tests.{
  World, spent, fresh, noon, noon-IsTime, daily_budget, toy_backend, toy_uuid, toy_float,
  toy_crypto,
}
use airelay.Tests.Api.{toy_body, toy_store, toy_claims, request_for}

-- A Postgres that has the tables behind a request.
abbrev after : Db → Backend World
after db = record toy_backend { db_budgets = λ p w. (some (budgets_of p db), w) }

IsSame-world : (db : Db) (w : World) → IsSame (after db) w w
IsSame-world db w = record { counters = λ k. refl; sums = λ p a. refl; budgets = λ p. refl }

after-IsQuiet : (db : Db) → IsQuiet (after db) noon
after-IsQuiet db = record {
  same_day = λ w. (refl, refl, refl);
  now_reads = λ w. IsSame-world db w;
  ping_reads = λ w. IsSame-world db w;
  get_reads = λ k w. IsSame-world db w;
  sum_reads = λ p a w. IsSame-world db w;
  budgets_reads = λ p w. IsSame-world db w;
  set_writes = λ k j v d w. refl;
  set_keeps_sums = λ k v d w p a. refl;
}

-- Project 7 has a daily budget already.
abbrev limited : Store
limited = record toy_store { db = record toy_store.db { budgets = daily_budget ∷ [] } }

abbrev asked : Request
asked = record (request_for 7) { claims = some toy_claims }

owned_7 : owned 7 toy_claims.user_id limited.db ≡ true
unfolding owned claims_at
owned_7 = refl

abbrev keep : ℕ → ℕ
keep a = a

upsert_budget-check_budgets_example :
    let (flow, s') = upsert_budget keep asked limited in
    ((reply : Reply) × (flow ≡ next reply) × (reply.status ≡ 200))
    × ((check_budgets ⦃be = after s'.db⦄ 7 (fresh spent)).0.blocked ≡ (
        reached true 5 (spent_in ⦃be = after s'.db⦄ 7 period_daily noon spent)
        || over_limit ⦃be = after s'.db⦄ 7 noon (other_budgets 7 period_daily limited.db) spent))
upsert_budget-check_budgets_example =
    let (_, s') = upsert_budget keep asked limited in
    upsert_budget-check_budgets ⦃be = after s'.db⦄ keep (request_for 7) toy_claims limited 7 5
      period_daily true noon (fresh spent) refl refl refl refl refl refl owned_7 (ground arith)
      ((by_day, refl), tt) (after-IsQuiet s'.db) (omega arith) noon-IsTime refl refl refl

delete_budget-check_budgets_example :
    let (flow, s') = delete_budget asked limited in
    (flow ≡ next no_content)
    × ((check_budgets ⦃be = after s'.db⦄ 7 (fresh spent)).0.blocked
        ≡ over_limit ⦃be = after s'.db⦄ 7 noon (left_budgets 7 [] limited.db) spent)
delete_budget-check_budgets_example =
    let (_, s') = delete_budget asked limited in
    delete_budget-check_budgets ⦃be = after s'.db⦄ (request_for 7) toy_claims limited 7 noon
      (fresh spent) refl refl refl owned_7 ((by_day, refl), tt) (after-IsQuiet s'.db) (omega arith)
      noon-IsTime refl refl refl
