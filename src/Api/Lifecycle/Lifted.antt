-- ===== src/Api/Lifecycle/Lifted.antt =====
-- The removal of a budget from the API to the check of the proxy.
use airelay.Base.{
  ◌^◌, ◌<◌, ◌≡◌, refl, ap, ◌∙◌, inl, inr, Bool, true, not, ◌&&◌, none, some, List, [], ◌∷◌, Bytes,
  codes, bytes_eq, ◌==◌, filter, delete_where, All, if◌then◌else◌, arith, Bool-cases,
}
use airelay.Float.{FloatOps}
use airelay.Time.{Time, IsTime}
use airelay.Uuid.{Uuid, UuidLib}
use airelay.Models.{Budget}
use airelay.Proxy.Backend.{Backend}
use airelay.Proxy.Budgets.{State, check_budgets}
use airelay.Proxy.Budgets.Quiet.{IsQuiet}
use airelay.Proxy.Budgets.Quiet.Decides.{HasPeriod, over_limit, check_budgets-over_limit}
use airelay.Api.Http.{Claims, Request, no_content}
use airelay.Api.Db.{Db, Store, next}
use airelay.Api.Projects.{owned, is_empty, project_from_path}
use airelay.Api.Budgets.{delete_budget}
use airelay.Api.Lifecycle.Limited.{budgets_of, other_budgets, All-filter}

filter-delete_all : {A : Type 0} (p : A → Bool) (xs : List A) → filter p (delete_where p xs) ≡ []
filter-delete_all p [] = refl
filter-delete_all p (x ∷ xs) = ground (arith, filter-delete_all p xs)

filter-delete_and :
    {A : Type 0} (p q : A → Bool) (xs : List A)
    → filter p (delete_where (λ x. p x && q x) xs) ≡ filter (λ x. p x && not (q x)) xs
filter-delete_and p q [] = refl
filter-delete_and p q (x ∷ xs) = ground (arith, filter-delete_and p q xs)

-- The budgets of a project that a DELETE with this `period` leaves.
abbrev pub left_budgets : Uuid → Bytes → Db → List Budget
left_budgets project period db = if is_empty period then [] else other_budgets project period db

module _ {W : Type 0} ⦃be : Backend W⦄ ⦃fl : FloatOps⦄ ⦃lib : UuidLib⦄ where
  -- Where a user deletes the budget of a period, or with no period all budgets, of a project of the
  -- user's, and the statements run, the reply is 204; and a proxy that has no cached budgets of the
  -- project, whose Postgres answers from the tables that this leaves, with Redis up, no one else
  -- writing and the clock in one day, then refuses the project's requests exactly if a budget for
  -- another period is a hard limit that is reached; behind a deletion of all it refuses none.
  pub delete_budget-check_budgets :
      (r : Request) (c : Claims) (s : Store) (project : Uuid) (t : Time) (b : State W)
      → lib.parse (r.path_value (codes "id")) ≡ some project
      → (s.script 0).ok ≡ true
      → (s.script 1).ok ≡ true
      → owned project c.user_id s.db ≡ true
      → All HasPeriod s.db.budgets
      → IsQuiet be t
      → project < 2 ^ 128
      → IsTime t
      → b.cache project ≡ none
      → (be.redis_ping b.world).0 ≡ true
      → let period = r.query (codes "period") in
        let (flow, s') = delete_budget (record r { claims = some c }) s in
        (be.db_budgets project b.world).0 ≡ some (budgets_of project s'.db)
        → (flow ≡ next no_content)
          × ((check_budgets project b).0.blocked
              ≡ over_limit project t (left_budgets project period s.db) b.world)
  unfolding delete_budget project_from_path
  delete_budget-check_budgets r c s project t b e ok0 ok1 o periods quiet bound time fresh up
        answers =
      let period = r.query (codes "period") in
      let s' = (delete_budget (record r { claims = some c }) s).1 in
      let mine : Budget → Bool = λ x. x.project_id == project in
      let rows : budgets_of project s'.db ≡ left_budgets project period s.db =
        elim (Bool-cases (is_empty period)) [
          | inl f ↦ rw (e, ok0, o, ok1, f) (filter-delete_all mine s.db.budgets)
          | inr f ↦
              rw (e, ok0, o, ok1, f)
                (filter-delete_and mine (λ x. bytes_eq x.period period) s.db.budgets)
        ] in
      let left : All HasPeriod (left_budgets project period s.db) =
        elim (Bool-cases (is_empty period)) [
          | inl f ↦ rw f tt
          | inr f ↦ rw f (
              All-filter HasPeriod (λ x. mine x && not (bytes_eq x.period period)) s.db.budgets
                periods)
        ] in
      (
        rw (e, ok0, o, ok1) refl,
        check_budgets-over_limit project t quiet bound time (left_budgets project period s.db) b
            fresh up (answers ∙ ap some rows) left,
      )
