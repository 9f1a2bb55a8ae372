-- ===== src/Api/Lifecycle/Limited.antt =====
-- A budget from the API to the check of the proxy.
use airelay.Base.{
  ◌^◌, ◌<◌, ◌≡◌, refl, ap, ◌∙◌, inl, inr, Bool, true, false, not, ◌&&◌, ◌||◌, Option, none, some,
  List, [], ◌∷◌, ◌++◌, codes, bytes_eq, bytes_eq_iff, ◌==◌, ==_refl, any, find, filter,
  update_where, All, arith, Bool-cases,
}
use airelay.Float.{Float64, FloatOps}
use airelay.Time.{Time, IsTime}
use airelay.Uuid.{Uuid, UuidLib}
use airelay.Models.{Budget, BudgetPeriod, period_daily, period_monthly}
use airelay.Budget.Keys.{by_day, by_month}
use airelay.Proxy.Backend.{Backend}
use airelay.Proxy.Budgets.{State, exceeded, check_budgets}
use airelay.Proxy.Budgets.Quiet.{IsQuiet, spent_in}
use airelay.Proxy.Budgets.Quiet.Decides.{HasPeriod, over_limit, check_budgets-over_limit}
use airelay.Api.Http.{Reply, Claims, Request, BodyJson}
use airelay.Api.Db.{Db, Store, next}
use airelay.Api.Projects.{owned, project_from_path}
use airelay.Api.Budgets.{is_budget_of, is_period, upsert_over, upsert_budget_row, upsert_budget}
use airelay.Api.Lifecycle.Created.{owned-any}

module _ {A : Type 0} (g p q : A → Bool) where
  abbrev others : List A → Bool
  others xs = any g (filter (λ x. p x && not (q x)) xs)

  any-filter-append :
      (xs : List A) (y : A)
      → find (λ x. p x && q x) xs ≡ none
      → p y ≡ true
      → any g (filter p (xs ++ y ∷ [])) ≡ (g y || others xs)
  any-filter-append [] y h e = rw e refl
  any-filter-append (x ∷ xs) y h e =
      let ih = any-filter-append xs y in
      elim (Bool-cases (p x)) [
        | inl a ↦ elim (Bool-cases (q x)) [
          | inl b ↦ absurd (ground arith)
          | inr b ↦ ground (arith, ih)
        ]
        | inr a ↦ ground (arith, ih)
      ]

  any-filter-update_where :
      (f : A → A) (b : Bool) (xs : List A)
      → ((x : A) → p (f x) ≡ p x)
      → ((x : A) → (p x && q x) ≡ true → g (f x) ≡ b)
      → any g (filter p (update_where (λ x. p x && q x) f xs))
        ≡ ((any (λ x. p x && q x) xs && b) || others xs)
  any-filter-update_where f b [] k h = refl
  any-filter-update_where f b (x ∷ xs) k h =
      let ih = any-filter-update_where f b xs k h in
      let gx = h x in
      let px = k x in
      elim (Bool-cases (p x)) [
        | inl a ↦ elim (Bool-cases (q x)) [
          | inl c ↦ ground (arith, ih, gx)
          | inr c ↦ ground (arith, ih)
        ]
        | inr a ↦ ground (arith, ih)
      ]

find-any : {A : Type 0} (p : A → Bool) (xs : List A) (x : A) → find p xs ≡ some x → any p xs ≡ true
find-any p [] x h = cc
find-any p (y ∷ xs) x h = ground (arith, find-any p xs x)

module _ {A : Type 0} (P : A → Type 0) where
  pub All-filter : (p : A → Bool) (xs : List A) → All P xs → All P (filter p xs)
  All-filter p [] h = h
  All-filter p (x ∷ xs) (h, hs) = elim (Bool-cases (p x)) [
    | inl e ↦ rw e (h, All-filter p xs hs)
    | inr e ↦ rw e (All-filter p xs hs)
  ]

  All-append_one : (xs : List A) (y : A) → All P xs → P y → All P (xs ++ y ∷ [])
  All-append_one [] y h k = (k, tt)
  All-append_one (x ∷ xs) y (h, hs) k = (h, All-append_one xs y hs k)

  All-update_where :
      (p : A → Bool) (f : A → A) (xs : List A)
      → ((x : A) → P x → P (f x))
      → All P xs
      → All P (update_where p f xs)
  All-update_where p f [] k h = h
  All-update_where p f (x ∷ xs) k (h, hs) = elim (Bool-cases (p x)) [
    | inl e ↦ rw e (k x h, All-update_where p f xs k hs)
    | inr e ↦ rw e (h, All-update_where p f xs k hs)
  ]

HasPeriod-of : (b : Budget) → is_period b.period ≡ true → HasPeriod b
HasPeriod-of b h = elim (Bool-cases (bytes_eq b.period period_daily)) [
  | inl e ↦ (by_day, (bytes_eq_iff b.period period_daily).0 e)
  | inr e ↦ (by_month, (bytes_eq_iff b.period period_monthly).0 (rw e at h))
]

-- The budgets that the proxy's query of a project gives.
abbrev pub budgets_of : Uuid → Db → List Budget
budgets_of project db = filter (λ b. b.project_id == project) db.budgets

-- The rows of the project for another period.
abbrev pub other_budgets : Uuid → BudgetPeriod → Db → List Budget
other_budgets project period db =
    filter (λ b. b.project_id == project && not (bytes_eq b.period period)) db.budgets

-- A hard limit is not above what is spent; what could not be read reaches none.
abbrev pub reached : ⦃fl : FloatOps⦄ → Bool → Float64 → Option Float64 → Bool
reached hard amount none = false
reached ⦃fl⦄ hard amount (some spent) = hard && fl.le amount spent

abbrev new_budget : Uuid → Float64 → BudgetPeriod → Bool → Uuid → Time → Budget
new_budget project amount period hard id now = record {
  id = id;
  project_id = project;
  amount_usd = amount;
  period = period;
  hard_limit = hard;
  created_at = now;
}

-- What an upsert leaves, for a test of the rows that reads the project, the period, the amount and
-- the limit.
record IsUpserted (project : Uuid) (period : BudgetPeriod) (g : Budget → Bool) (b : Bool)
    (db db' : Db) : Type 0 where
  periods : All HasPeriod db.budgets → All HasPeriod db'.budgets
  tested : any g (budgets_of project db') ≡ (b || any g (other_budgets project period db))

upsert_over_lem :
    (project : Uuid) (amount : Float64) (period : BudgetPeriod) (hard : Bool) (id : Uuid)
    (now : Time) (db : Db) (g : Budget → Bool) (b : Bool) (found : Option Budget)
    → find (is_budget_of project period) db.budgets ≡ found
    → any (λ x. x.id == id) db.budgets ≡ false
    → any (λ p. p.id == project) db.projects ≡ true
    → is_period period ≡ true
    → ((x : Budget) → x.period ≡ period → x.amount_usd ≡ amount → x.hard_limit ≡ hard → g x ≡ b)
    → (given : Uuid) × (db' : Db) × (upsert_over project amount period hard id now found db
        ≡ some (given, db'))
      × IsUpserted project period g b db db'
unfolding upsert_over
upsert_over_lem project amount period hard id now db g b none e new there per test =
    let row = new_budget project amount period hard id now in
    (
      id,
      record db { budgets = db.budgets ++ row ∷ [] },
      rw (new, there) refl,
      record {
        periods = λ h. All-append_one HasPeriod db.budgets row h (HasPeriod-of row per);
        tested =
            any-filter-append g (λ x. x.project_id == project) (λ x. bytes_eq x.period period)
              db.budgets row e (==_refl project)
            ∙ ap (λ (x : Bool). x || any g (other_budgets project period db))
                (test row refl refl refl);
      },
    )
upsert_over_lem project amount period hard id now db g b (some c) e new there per test =
    let change : Budget → Budget = λ x. record x { amount_usd = amount; hard_limit = hard } in
    (
      c.id,
      record db { budgets = update_where (is_budget_of project period) change db.budgets },
      refl,
      record {
        periods =
            All-update_where HasPeriod (is_budget_of project period) change db.budgets (λ x h. h);
        tested =
            any-filter-update_where g (λ x. x.project_id == project) (λ x. bytes_eq x.period period)
              change b db.budgets (λ x. refl)
              (λ x h. test (change x) ((bytes_eq_iff x.period period).0 (ground arith)) refl refl)
            ∙ rw (find-any (is_budget_of project period) db.budgets c e) refl;
      },
    )

module _ ⦃fl : FloatOps⦄ ⦃lib : UuidLib⦄ ⦃json : BodyJson⦄ where
  upsert_budget-IsUpserted :
      (stored : Float64 → Float64) (r : Request) (c : Claims) (s : Store) (project : Uuid)
      (amount : Float64) (period : BudgetPeriod) (hard : Bool) (g : Budget → Bool) (b : Bool)
      → lib.parse (r.path_value (codes "id")) ≡ some project
      → json.budget r.body ≡ some (amount, period, hard)
      → is_period period ≡ true
      → fl.le amount (fl.literal 0 1) ≡ false
      → (s.script 0).ok ≡ true
      → (s.script 1).ok ≡ true
      → owned project c.user_id s.db ≡ true
      → any (λ x. x.id == (s.script 1).id) s.db.budgets ≡ false
      → ((x : Budget)
          → x.period ≡ period
          → x.amount_usd ≡ stored amount
          → x.hard_limit ≡ hard
          → g x ≡ b)
      → let (flow, s') = upsert_budget stored (record r { claims = some c }) s in
        ((reply : Reply) × (flow ≡ next reply) × (reply.status ≡ 200))
        × IsUpserted project period g b s.db s'.db
  unfolding upsert_budget project_from_path upsert_budget_row
  upsert_budget-IsUpserted stored r c s project amount period hard g b e body per pos ok0 ok1 o new
        test =
      let o1 = s.script 1 in
      let (given, db', done, is) =
        upsert_over_lem project (stored amount) period hard o1.id o1.now s.db g b
          (find (is_budget_of project period) s.db.budgets) refl new
          (owned-any project c.user_id s.db o) per test in
      rw (e, ok0, o, body, per, pos, ok1, done) ((_, refl, refl), is)

exceeded-reached :
    ⦃fl : FloatOps⦄ (x : Budget) (o : Option Float64)
    → exceeded x o ≡ reached x.hard_limit x.amount_usd o
unfolding exceeded
exceeded-reached x none = refl
exceeded-reached x (some v) = refl

module _ {W : Type 0} ⦃be : Backend W⦄ ⦃fl : FloatOps⦄ ⦃lib : UuidLib⦄ ⦃json : BodyJson⦄ where
  -- Where a user sets a positive budget for a period of a project of the user's, and both statements
  -- run, the reply is 200. From then on a proxy that has no cached budgets of the project, whose
  -- Postgres answers from the tables that this leaves, with Redis up, no one else writing and the clock
  -- in one day, refuses the project's requests exactly if the budget that was set is a hard limit
  -- and not above what the project has spent in the period, or one of the project's budgets for
  -- another period is so. The amounts are those that the column keeps; every budget in the table has
  -- one of the two periods, and the id of a new row is new.
  pub upsert_budget-check_budgets :
      (stored : Float64 → Float64) (r : Request) (c : Claims) (s : Store) (project : Uuid)
      (amount : Float64) (period : BudgetPeriod) (hard : Bool) (t : Time) (b : State W)
      → lib.parse (r.path_value (codes "id")) ≡ some project
      → json.budget r.body ≡ some (amount, period, hard)
      → is_period period ≡ true
      → fl.le amount (fl.literal 0 1) ≡ false
      → (s.script 0).ok ≡ true
      → (s.script 1).ok ≡ true
      → owned project c.user_id s.db ≡ true
      → any (λ x. x.id == (s.script 1).id) s.db.budgets ≡ false
      → All HasPeriod s.db.budgets
      → IsQuiet be t
      → project < 2 ^ 128
      → IsTime t
      → b.cache project ≡ none
      → (be.redis_ping b.world).0 ≡ true
      → let (flow, s') = upsert_budget stored (record r { claims = some c }) s in
        (be.db_budgets project b.world).0 ≡ some (budgets_of project s'.db)
        → ((reply : Reply) × (flow ≡ next reply) × (reply.status ≡ 200))
          × ((check_budgets project b).0.blocked ≡ (
              reached hard (stored amount) (spent_in project period t b.world)
              || over_limit project t (other_budgets project period s.db) b.world))
  unfolding over_limit
  upsert_budget-check_budgets stored r c s project amount period hard t b e body per pos ok0 ok1 o
        new periods quiet bound time fresh up answers =
      let spent : Budget → Option Float64 = λ x. spent_in project x.period t b.world in
      let (replied, is) =
        upsert_budget-IsUpserted stored r c s project amount period hard (λ x. exceeded x (spent x))
          (reached hard (stored amount) (spent_in project period t b.world)) e body per pos ok0 ok1
          o new (λ x p a h. exceeded-reached x (spent x) ∙ rw (p, a, h) refl) in
      let (_, s') = upsert_budget stored (record r { claims = some c }) s in
      (
        replied,
        check_budgets-over_limit project t quiet bound time (budgets_of project s'.db) b fresh up
              answers
              (All-filter HasPeriod (λ x. x.project_id == project) s'.db.budgets
                (is.periods periods))
            ∙ is.tested,
      )
