-- ===== src/Api/Server/Rows.antt =====
-- What the statements of the management API leave of the rows of another project.
use airelay.Base.{
  ◌≡◌, inl, inr, refl, ap, Bool, true, false, ◌&&◌, Option, none, some, List, [], ◌∷◌, ◌||◌,
  bytes_eq, Bytes, ◌==◌, filter, any, filter-append_out, filter-update_where, filter-delete_where,
  arith, Bool-cases,
}
use airelay.Float.{Float64}
use airelay.Time.{Time}
use airelay.Uuid.{Uuid}
use airelay.Models.{Project, ApiKey, ProviderCredential, Budget}
use airelay.Api.Db.{Db, is_none}
use airelay.Api.Projects.{insert_project, owned, archive}
use airelay.Api.Db.Keeps.{Result, unless-Result}
use airelay.Api.Budgets.{upsert_over, is_budget_of, delete_budgets}
use airelay.Api.Credentials.{upsert_found, revoke_credentials, is_active_credential, is_current}
use airelay.Api.Keys.{revoke_keys, insert_key, is_active_key}

-- The rows of a project.
abbrev pub rows_of : Uuid → Db → List Project × List ApiKey × List ProviderCredential × List Budget
rows_of p db = (
  filter (λ q. q.id == p) db.projects,
  filter (λ k. k.project_id == p) db.api_keys,
  filter (λ c. c.project_id == p) db.provider_credentials,
  filter (λ b. b.project_id == p) db.budgets,
)

owned_ne :
    (p q user : Uuid) (db : Db)
    → owned p user db ≡ false
    → owned q user db ≡ true
    → (q == p) ≡ false
owned_ne p q user db h k = grind arith

-- The rows of a project stay what they were.
unfoldable pub Rows : Uuid → Db → Db → Type 0
Rows p db db' = rows_of p db' ≡ rows_of p db

pub eq-Rows : (p : Uuid) (db db' : Db) → db' ≡ db → Rows p db db'
unfolding Rows
eq-Rows p db db' e = ap (rows_of p) e

-- A row of one project is of no other.
other : (p q x : Uuid) → (q == p) ≡ false → (x == p) ≡ true → (x == q) ≡ false
other p q x n e = ground arith

other_and :
    (p q x : Uuid) (a b : Bool)
    → (q == p) ≡ false
    → (x == p) ≡ true
    → (a && ((x == q) && b)) ≡ false
other_and p q x a b n e = ground arith

module _ (p : Uuid) (db db' : Db) (h : Rows p db db') where
  with_projects :
      (rows : List Project)
      → filter (λ x. x.id == p) rows ≡ filter (λ x. x.id == p) db'.projects
      → Rows p db (record db' { projects = rows })
  unfolding Rows
  with_projects rows e = rw e h

  with_api_keys :
      (rows : List ApiKey)
      → filter (λ x. x.project_id == p) rows ≡ filter (λ x. x.project_id == p) db'.api_keys
      → Rows p db (record db' { api_keys = rows })
  unfolding Rows
  with_api_keys rows e = rw e h

  with_provider_credentials :
      (rows : List ProviderCredential)
      → filter (λ x. x.project_id == p) rows
        ≡ filter (λ x. x.project_id == p) db'.provider_credentials
      → Rows p db (record db' { provider_credentials = rows })
  unfolding Rows
  with_provider_credentials rows e = rw e h

  with_budgets :
      (rows : List Budget)
      → filter (λ x. x.project_id == p) rows ≡ filter (λ x. x.project_id == p) db'.budgets
      → Rows p db (record db' { budgets = rows })
  unfolding Rows
  with_budgets rows e = rw e h

module _ (p q : Uuid) (db db' : Db) (n : (q == p) ≡ false) (h : Rows p db db') where
  pub archive-keeps : (id : Uuid) (now : Time) → Result (Rows p db) (archive q id now db')
  archive-keeps id now = with_projects p db db' h _ (
      filter-update_where (λ x. x.id == p) (λ x. x.id == q)
        (λ x. record x { archived_at = some now }) db'.projects (λ x. other p q x.id n) (λ x. refl))

  pub insert_key-keeps :
      (hash prefix name : Bytes) (id : Uuid) (now : Time)
      → Result (Rows p db) (insert_key q hash prefix name id now db')
  unfolding insert_key
  insert_key-keeps hash prefix name id now =
      unless-Result (Rows p db) _ _
        (with_api_keys p db db' h _ (filter-append_out (λ x. x.project_id == p) db'.api_keys _ n))

  pub revoke_keys-keeps :
      (k id : Uuid) (now : Time) → Result (Rows p db) (revoke_keys k q id now db')
  revoke_keys-keeps k id now = with_api_keys p db db' h _ (
      filter-update_where (λ x. x.project_id == p) (is_active_key k q)
        (λ x. record x { revoked_at = some now }) db'.api_keys
        (λ x. other_and p q x.project_id (x.id == k) (is_none x.revoked_at) n) (λ x. refl))

  pub upsert_credential-keeps :
      (provider key : Bytes) (id : Uuid) (now : Time) (found : Option ProviderCredential)
      → Result (Rows p db) (upsert_found q provider key id now found db')
  unfolding upsert_found
  upsert_credential-keeps provider key id now none = unless-Result (Rows p db) _ _ (
      with_provider_credentials p db db' h _
        (filter-append_out (λ x. x.project_id == p) db'.provider_credentials _ n))
  upsert_credential-keeps provider key id now (some c) = with_provider_credentials p db db' h _ (
      filter-update_where (λ x. x.project_id == p) (is_current q provider)
        (λ x. record x { encrypted_key = key; revoked_at = none }) db'.provider_credentials
        (λ x.
          other_and p q x.project_id true (bytes_eq x.provider provider && is_none x.revoked_at) n)
        (λ x. refl))

  pub revoke_credentials-keeps :
      (k id : Uuid) (now : Time) → Result (Rows p db) (revoke_credentials k q id now db')
  revoke_credentials-keeps k id now = with_provider_credentials p db db' h _ (
      filter-update_where (λ x. x.project_id == p) (is_active_credential k q)
        (λ x. record x { revoked_at = some now }) db'.provider_credentials
        (λ x. other_and p q x.project_id (x.id == k) (is_none x.revoked_at) n) (λ x. refl))

  pub upsert_budget-keeps :
      (amount : Float64) (period : Bytes) (hard : Bool) (id : Uuid) (now : Time)
      (found : Option Budget)
      → Result (Rows p db) (upsert_over q amount period hard id now found db')
  unfolding upsert_over
  upsert_budget-keeps amount period hard id now none =
      unless-Result (Rows p db) _ _
        (with_budgets p db db' h _ (filter-append_out (λ x. x.project_id == p) db'.budgets _ n))
  upsert_budget-keeps amount period hard id now (some b) = with_budgets p db db' h _ (
      filter-update_where (λ x. x.project_id == p) (is_budget_of q period)
        (λ x. record x { amount_usd = amount; hard_limit = hard }) db'.budgets
        (λ x. other_and p q x.project_id true (bytes_eq x.period period) n) (λ x. refl))

  pub delete_budgets-keeps :
      (period : Bytes) (id : Uuid) (now : Time)
      → Result (Rows p db) (delete_budgets q period id now db')
  delete_budgets-keeps [] id now = with_budgets p db db' h _ (
      filter-delete_where (λ x. x.project_id == p) (λ x. x.project_id == q) db'.budgets
        (λ x. other p q x.project_id n))
  delete_budgets-keeps (c ∷ period) id now = with_budgets p db db' h _ (
      filter-delete_where (λ x. x.project_id == p) (is_budget_of q (c ∷ period)) db'.budgets
        (λ x. other_and p q x.project_id true (bytes_eq x.period (c ∷ period)) n))

fresh_ne :
    (p id : Uuid) (slug : Bytes) (ps : List Project)
    → any (λ x. x.id == p) ps ≡ true
    → any (λ x. x.id == id || bytes_eq x.slug slug) ps ≡ false
    → (id == p) ≡ false
fresh_ne p id slug [] h k = ground arith
fresh_ne p id slug (x ∷ ps) h k = ground (arith, fresh_ne p id slug ps)

-- The ids of the projects are unique, so a new one is not this one.
pub insert_project-keeps :
    (p : Uuid) (db db' : Db) (user : Uuid) (name slug : Bytes) (id : Uuid) (now : Time)
    → any (λ x. x.id == p) db'.projects ≡ true
    → Rows p db db'
    → Result (Rows p db) (insert_project user name slug id now db')
unfolding insert_project
insert_project-keeps p db db' user name slug id now there h =
    elim (Bool-cases (any (λ x. x.id == id || bytes_eq x.slug slug) db'.projects)) [
      | inl b ↦ rw b tt
      | inr b ↦ unless-Result (Rows p db) _ _ (
          with_projects p db db' h _ (
            filter-append_out (λ x. x.id == p) db'.projects _
              (fresh_ne p id slug db'.projects there b)))
    ]
