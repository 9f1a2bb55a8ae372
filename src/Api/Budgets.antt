-- ===== src/Api/Budgets.antt =====
-- api/budget.go. The GET of a spend counter is a function, 0 for an error.
use airelay.Base.{
  Bool, ◌&&◌, ◌||◌, not, Option, none, some, List, [], ◌∷◌, ◌++◌, Bytes, codes, bytes_eq, ◌==◌,
  if◌then◌else◌, filter, any, find, update_where, delete_where,
}
use airelay.Float.{Float64, FloatOps}
use airelay.Time.{Time}
use airelay.Uuid.{Uuid, UuidLib}
use airelay.Models.{Budget, BudgetPeriod, period_daily, period_monthly}
use airelay.Budget.{spend_key}
use airelay.Api.Http.{
  text, real, flag, object, array, instant_of, field, end, Items, nil, cons, Reply, write_json,
  write_error, no_content, Request, BodyJson,
}
use airelay.Api.Db.{Db, M, ◌>>=◌, ◌>>◌, pure, refuse_if, or_refuse, query, execute}
use airelay.Api.Projects.{is_empty, project_from_path}

abbrev pub is_budget_of : Uuid → BudgetPeriod → Budget → Bool
is_budget_of project period b = b.project_id == project && bytes_eq b.period period

-- The INSERT … ON CONFLICT (project_id, period) DO UPDATE, by whether there is a row.
unfoldable pub upsert_over :
    Uuid → Float64 → BudgetPeriod → Bool → Uuid → Time → Option Budget → Db → Option (Uuid × Db)
upsert_over project amount period hard id now none db =
    if any (λ b. b.id == id) db.budgets || not (any (λ p. p.id == project) db.projects)
    then none
    else some (
      id,
      record db {
        budgets =
            db.budgets
            ++ record {
              id = id;
              project_id = project;
              amount_usd = amount;
              period = period;
              hard_limit = hard;
              created_at = now;
            }
              ∷ [];
      },
    )
upsert_over project amount period hard id now (some b) db = some (
  b.id,
  record db {
    budgets =
        update_where (is_budget_of project period)
          (λ x. record x { amount_usd = amount; hard_limit = hard }) db.budgets;
  },
)

unfoldable pub upsert_budget_row :
    Uuid → Float64 → BudgetPeriod → Bool → Uuid → Time → Db → Option (Uuid × Db)
unfolding upsert_over
upsert_budget_row project amount period hard id now db =
    upsert_over project amount period hard id now (find (is_budget_of project period) db.budgets) db

-- DELETE FROM budgets WHERE project_id=$1, and AND period=$2 with a period.
abbrev pub delete_budgets : Uuid → Bytes → Uuid → Time → Db → Option (Unit {0} × Db)
delete_budgets project period _ _ db = some (
  tt,
  record db {
    budgets =
        if is_empty period
        then delete_where (λ b. b.project_id == project) db.budgets
        else delete_where (is_budget_of project period) db.budgets;
  },
)

abbrev pub is_period : Bytes → Bool
is_period p = bytes_eq p period_daily || bytes_eq p period_monthly

module _ ⦃lib : UuidLib⦄ where
  -- The loop over the rows. `spend` is the GET of a counter, 0 for an error.
  budget_rows : (Bytes → Float64) → Uuid → Time → List Budget → Items
  budget_rows spend project now [] = nil
  budget_rows spend project now (b ∷ bs) =
      cons
        (object (
          field (codes "id") (text (lib.to_string b.id)) (
            field (codes "amount_usd") (real b.amount_usd) (
              field (codes "period") (text b.period) (
                field (codes "hard_limit") (flag b.hard_limit) (
                  field (codes "current_spend") (real (spend (spend_key project b.period now)))
                    (field (codes "created_at") (instant_of b.created_at) end)))))))
        (budget_rows spend project now bs)

  -- BudgetHandler.Get, at the clock's reading `now`.
  unfoldable pub get_budgets : (Bytes → Float64) → Time → Request → M Reply
  unfolding project_from_path budget_rows
  get_budgets spend now r = do
    project ← project_from_path r
    found ← query (λ db. filter (λ b. b.project_id == project) db.budgets)
    rows ← or_refuse found (write_error 500 (codes "database error"))
    pure (
        write_json 200
          (object (field (codes "budgets") (array (budget_rows spend project now rows)) end)))

  -- BudgetHandler.Upsert. `stored` is the amount as the column NUMERIC(12,6) keeps it.
  unfoldable pub upsert_budget :
      ⦃fl : FloatOps⦄ → ⦃json : BodyJson⦄ → (Float64 → Float64) → Request → M Reply
  unfolding project_from_path
  upsert_budget ⦃fl⦄ ⦃json⦄ stored r = do
    project ← project_from_path r
    (amount, period, hard) ←
        or_refuse (json.budget r.body) (write_error 400 (codes "invalid request body"))
    refuse_if (not (is_period period)) (write_error 400 (codes "period must be daily or monthly"))
    refuse_if (fl.le amount (fl.literal 0 1))
        (write_error 400 (codes "amount_usd must be positive"))
    done ← execute (upsert_budget_row project (stored amount) period hard)
    id ← or_refuse done (write_error 500 (codes "could not upsert budget"))
    pure (
        write_json 200 (
          object (
            field (codes "id") (text (lib.to_string id)) (
              field (codes "amount_usd") (real amount) (
                field (codes "period") (text period)
                  (field (codes "hard_limit") (flag hard) end))))))

  -- BudgetHandler.Delete, which does not read the error of its statement.
  unfoldable pub delete_budget : Request → M Reply
  unfolding project_from_path
  delete_budget r = do
    project ← project_from_path r
    done ← execute (delete_budgets project (r.query (codes "period")))
    pure no_content
