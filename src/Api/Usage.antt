-- ===== src/Api/Usage.antt =====
-- api/usage.go and api/models.go. An `int` is its 64 bits, read in two's complement.
pub mod Pages
use airelay.Base.{
  ℕ, ◌+◌, ◌-◌, ◌*◌, ◌%◌, ◌^◌, ◌≤◌, ◌<◌, ◌≡◌, Bool, true, false, ◌&&◌, ◌||◌, not, Option, none, some,
  List, [], ◌∷◌, ◌++◌, Bytes, codes, bytes_eq, ◌==◌, leb, ltb, if◌then◌else◌, filter, any,
  count_where, sort_desc, length, take, drop, map,
}
use airelay.Float.{Float64}
use airelay.Time.{Time, instant}
use airelay.Uuid.{Uuid, UuidLib}
use airelay.Models.{UsageEvent, ModelPricing}
use airelay.Api.Http.{
  Json, null, number, real, flag, text, object, array, instant_of, Fields, field, end, Items, nil,
  cons, Reply, write_json, write_error, Claims, Request,
}
use airelay.Api.Db.{
  Db, Store, M, ◌>>=◌, ◌>>◌, pure, refuse, refuse_if, or_refuse, query, Flow, next, stop,
}
use airelay.Api.Plans.{history_start}
use airelay.Api.Projects.{not_authenticated, project_from_path}

abbrev pub int_mod : ℕ
int_mod = 2 ^ 64

abbrev pub int_half : ℕ
int_half = 2 ^ 63

-- `n < 1` of an int
abbrev lt_one : ℕ → Bool
lt_one n = n == 0 || leb int_half n

unfoldable pub page_of : ℕ → ℕ
page_of n = if lt_one n then 1 else n

unfoldable pub limit_of : ℕ → ℕ
limit_of n = if lt_one n || ltb 200 n then 50 else n

-- (page - 1) * limit
unfoldable pub offset_of : ℕ → ℕ → ℕ
offset_of page limit = (page - 1) * limit % int_mod

-- The rows of a project since an instant, newest first.
abbrev pub events_since : Uuid → ℕ → Db → List UsageEvent
events_since project start db =
    sort_desc (λ e. instant e.created_at)
      (filter (λ e. e.project_id == project && leb start (instant e.created_at)) db.usage_events)

-- … ORDER BY created_at DESC LIMIT $3 OFFSET $4. Postgres refuses a negative offset.
unfoldable pub event_page : Uuid → ℕ → ℕ → ℕ → Db → Option (List UsageEvent)
event_page project start limit offset db =
    if leb int_half offset
    then none
    else some (take limit (drop offset (events_since project start db)))

abbrev pub flatten {ℓ} : {A : Type ℓ} → Option (Option A) → Option A
flatten none = none
flatten (some o) = o

abbrev pub or_zero : Option ℕ → ℕ
or_zero none = 0
or_zero (some n) = n

abbrev pub cost_or_null : Option Float64 → Json
cost_or_null none = null
cost_or_null (some c) = real c

module _ ⦃lib : UuidLib⦄ where
  event_fields : UsageEvent → Json
  event_fields e = object (
      field (codes "id") (text (lib.to_string e.id)) (
        field (codes "provider") (text e.provider) (
          field (codes "model") (text e.model) (
            field (codes "prompt_tokens") (number e.prompt_tokens) (
              field (codes "completion_tokens") (number e.completion_tokens) (
                field (codes "cost_usd") (cost_or_null e.cost_usd) (
                  field (codes "duration_ms") (number e.duration_ms) (
                    field (codes "status_code") (number e.status_code) (
                      field (codes "fail_open") (flag e.fail_open)
                        (field (codes "created_at") (instant_of e.created_at) end))))))))))

  event_rows : List UsageEvent → Items
  unfolding event_fields
  event_rows [] = nil
  event_rows (e ∷ es) = cons (event_fields e) (event_rows es)

  -- UsageHandler.List, at the clock's reading `now`. `atoi` is strconv.Atoi, whose error is not read.
  unfoldable pub list_usage : (Bytes → ℕ) → Time → Request → M Reply
  unfolding project_from_path event_rows
  list_usage atoi now r = do
    project ← project_from_path r
    claims ← or_refuse r.claims not_authenticated
    let page = page_of (atoi (r.query (codes "page")))
    let limit = limit_of (atoi (r.query (codes "limit")))
    let start = history_start claims.plan now
    found ← query (event_page project start limit (offset_of page limit))
    events ← or_refuse (flatten found) (write_error 500 (codes "database error"))
    total ← query (λ db. length (events_since project start db))
    pure (
        write_json 200 (
          object (
            field (codes "events") (array (event_rows events)) (
              field (codes "total") (number (or_zero total))
                (field (codes "page") (number page) (field (codes "limit") (number limit) end))))))

-- A row of GROUP BY: a key, the sum of its costs, and its count.
pub record Group : Type 0 where
  pub key : Bytes
  pub cost_usd : Float64
  pub calls : ℕ

-- The queries of the summary: `by_model` and `by_day` group the rows and order the groups. They
-- are Postgres's SUM on NUMERIC and DATE on a time.
pub record Grouping : Type 0 where
  pub by_model : List UsageEvent → List Group
  pub by_day : List UsageEvent → List Group

model_rows : List Group → Items
model_rows [] = nil
model_rows (g ∷ gs) =
    cons
      (object (
        field (codes "model") (text g.key) (
          field (codes "cost_usd") (real g.cost_usd) (field (codes "calls") (number g.calls) end))))
      (model_rows gs)

day_rows : List Group → Items
day_rows [] = nil
day_rows (g ∷ gs) =
    cons
      (object (field (codes "date") (text g.key) (field (codes "cost_usd") (real g.cost_usd) end)))
      (day_rows gs)

-- `dayRows != nil`: an error of the second query gives no days.
abbrev pub or_empty : Option (List Group) → List Group
or_empty none = []
or_empty (some gs) = gs

-- UsageHandler.Summary
unfoldable pub summarise_usage : ⦃lib : UuidLib⦄ → ⦃group : Grouping⦄ → Time → Request → M Reply
unfolding project_from_path model_rows day_rows
summarise_usage ⦃lib⦄ ⦃group⦄ now r = do
  project ← project_from_path r
  claims ← or_refuse r.claims not_authenticated
  let start = history_start claims.plan now
  found ← query (λ db. group.by_model (events_since project start db))
  models ← or_refuse found (write_error 500 (codes "database error"))
  days ← query (λ db. take 30 (group.by_day (events_since project start db)))
  pure (
      write_json 200 (
        object (
          field (codes "by_model") (array (model_rows models))
            (field (codes "by_day") (array (day_rows (or_empty days))) end))))

price_rows : List ModelPricing → Items
price_rows [] = nil
price_rows (p ∷ ps) =
    cons
      (object (
        field (codes "provider") (text p.provider) (
          field (codes "model") (text p.model) (
            field (codes "input_cost_per_1k") (real p.input_cost_per_1k) (
              field (codes "output_cost_per_1k") (real p.output_cost_per_1k) (
                field (codes "synced_from") (text p.synced_from)
                  (field (codes "last_synced_at") (instant_of p.last_synced_at) end)))))))
      (price_rows ps)

-- ModelsHandler.List. `ordered` is ORDER BY provider, model, by Postgres's collation.
unfoldable pub list_models : (List ModelPricing → List ModelPricing) → Request → M Reply
unfolding price_rows
list_models ordered r = do
  found ← query (λ db. ordered db.model_pricing)
  rows ← or_refuse found (write_error 500 (codes "database error"))
  pure (write_json 200 (object (field (codes "models") (array (price_rows rows)) end)))
