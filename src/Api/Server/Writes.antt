-- ===== src/Api/Server/Writes.antt =====
-- The one rule for the routes behind `authed`: what the statements of a request keep, its handler
-- keeps.
use airelay.Base.{
  ℕ, ◌≡◌, ◌<◌, ◌⊎◌, refl, sym, ◌∙◌, Bool, true, not, Option, some, Bytes, codes, arith,
}
use airelay.Float.{FloatOps, Float64}
use airelay.Time.{Time}
use airelay.Uuid.{Uuid, UuidLib}
use airelay.Models.{AiProvider, BudgetPeriod}
use airelay.Encrypt.{CryptoLib, encrypt}
use airelay.Proxy.Auth.{generate_key}
use airelay.Api.Http.{Reply, Claims, Request, BodyJson}
use airelay.Api.Db.{
  Db, Store, M, query, execute, prepare, commit, or_refuse, refuse_if, ◌>>=◌, ◌>>◌, within_limit,
}
use airelay.Api.Db.Keeps.{
  Result, same-Keeps, reads-Keeps, execute-Keeps, prepare-Keeps, within_limit-Keeps, commit-Keeps,
}
use airelay.Api.Plans.{limits}
use airelay.Api.Slug.{generate_slug}
use airelay.Api.Projects.{
  owned, is_empty, active_projects, full_projects, project_from_path, list_projects, create_project,
  get_project, delete_project, archive, insert_project,
}
use airelay.Api.Projects.Keeps.{project_from_path-Keeps}
use airelay.Api.Keys.{
  list_keys, create_key, revoke_key, insert_key, revoke_keys, name_or_none, active_keys, full_keys,
}
use airelay.Api.Credentials.{
  list_credentials, add_credential, revoke_credential, upsert_credential, revoke_credentials,
  is_provider, ok_or_none,
}
use airelay.Api.Budgets.{
  get_budgets, upsert_budget, delete_budget, upsert_budget_row, delete_budgets, is_period,
}
use airelay.Api.Auth.{Bcrypt, Jwt, me}
use airelay.Api.Usage.{Grouping, list_usage, summarise_usage}
use airelay.Api.Server.{Route, Inputs, handler_of}

-- A count that a plan's limit has let pass.
abbrev pub Below : ℕ → ℕ → Type 0
Below limit n = (limit ≡ 0) ⊎ (n < limit)

-- The statements that change the tables, each as its handler runs it.
pub record Writes (I : Db → Type 0) (c : Claims) (db : Db) : Type 0 where
  pub archives :
      (q id : Uuid) (now : Time) → owned q c.user_id db ≡ true → Result I (archive q id now db)
  pub inserts_project :
      (name slug : Bytes) (id : Uuid) (now : Time)
      → Below (limits c.plan).max_projects (active_projects c.user_id db)
      → Result I (insert_project c.user_id name slug id now db)
  pub inserts_key :
      (q : Uuid) (hash prefix name : Bytes) (id : Uuid) (now : Time)
      → owned q c.user_id db ≡ true
      → Below (limits c.plan).max_keys (active_keys q db)
      → Result I (insert_key q hash prefix name id now db)
  pub revokes_keys :
      (q k id : Uuid) (now : Time)
      → owned q c.user_id db ≡ true
      → Result I (revoke_keys k q id now db)
  pub upserts_credential :
      (q : Uuid) (provider : AiProvider) (key : Bytes) (id : Uuid) (now : Time)
      → owned q c.user_id db ≡ true
      → Result I (upsert_credential q provider key id now db)
  pub revokes_credentials :
      (q k id : Uuid) (now : Time)
      → owned q c.user_id db ≡ true
      → Result I (revoke_credentials k q id now db)
  pub upserts_budget :
      (q : Uuid) (amount : Float64) (period : BudgetPeriod) (hard : Bool) (id : Uuid) (now : Time)
      → owned q c.user_id db ≡ true
      → Result I (upsert_budget_row q amount period hard id now db)
  pub deletes_budgets :
      (q : Uuid) (period : Bytes) (id : Uuid) (now : Time)
      → owned q c.user_id db ≡ true
      → Result I (delete_budgets q period id now db)

module _ ⦃lib : UuidLib⦄ (I : Db → Type 0) (r : Request) (c : Claims) (s : Store) (i : I s.db)
    (w : Writes I c s.db) where
  behind :
      (k : Uuid → M Reply)
      → ((q : Uuid) (t : Store) → t.db ≡ s.db → owned q c.user_id s.db ≡ true → I (k q t).1.db)
      → I ((project_from_path (record r { claims = some c }) >>= k) s).1.db
  behind k keeps = project_from_path-Keeps I r c k s i keeps

  get_project-Keeps : I (get_project (record r { claims = some c }) s).1.db
  unfolding get_project
  get_project-Keeps = behind _ (λ q t e o. same-Keeps I s.db _ i (ground arith))

  -- A statement, and a handler that only answers after it.
  last {ℓ} :
      {A : Type ℓ} (f : Uuid → Time → Db → Option (A × Db)) (k : Option A → M Reply) (t : Store)
      → t.db ≡ s.db
      → ((id : Uuid) (now : Time) → Result I (f id now s.db))
      → ((a : Option A) (t' : Store) → (k a t').1.db ≡ t'.db)
      → I ((execute f >>= k) t).1.db
  last f k t e h g =
      execute-Keeps I f k t (same-Keeps I s.db t.db i e) (λ id now. rw e (h id now))
        (λ a t' j. same-Keeps I t'.db _ j (g a t'))

  delete_project-Keeps : I (delete_project (record r { claims = some c }) s).1.db
  unfolding delete_project
  delete_project-Keeps =
      behind _ (λ q t e o. last (archive q) _ t e (λ id now. w.archives q id now o) (λ a t'. refl))

  revoke_key-Keeps : I (revoke_key (record r { claims = some c }) s).1.db
  unfolding revoke_key
  revoke_key-Keeps = behind _ (λ q t e o.
      reads-Keeps I (or_refuse (lib.parse (r.path_value (codes "keyId"))) _) _ t (ground arith)
        (same-Keeps I s.db t.db i e)
        (λ k t' f.
          last (revoke_keys k q) _ t' (f ∙ e) (λ id now. w.revokes_keys q k id now o)
            (λ a t''. ground arith)))

  list_keys-Keeps : I (list_keys (record r { claims = some c }) s).1.db
  unfolding list_keys
  list_keys-Keeps = behind _ (λ q t e o. same-Keeps I s.db _ i (ground arith))

  list_credentials-Keeps : I (list_credentials (record r { claims = some c }) s).1.db
  unfolding list_credentials
  list_credentials-Keeps = behind _ (λ q t e o. same-Keeps I s.db _ i (ground arith))

  get_budgets-Keeps :
      ⦃fl : FloatOps⦄ (spend : Bytes → Float64) (now : Time)
      → I (get_budgets spend now (record r { claims = some c }) s).1.db
  unfolding get_budgets
  get_budgets-Keeps spend now = behind _ (λ q t e o. same-Keeps I s.db _ i (ground arith))

  delete_budget-Keeps : I (delete_budget (record r { claims = some c }) s).1.db
  unfolding delete_budget
  delete_budget-Keeps = behind _ (λ q t e o.
      last (delete_budgets q (r.query (codes "period"))) _ t e
        (λ id now. w.deletes_budgets q (r.query (codes "period")) id now o) (λ a t'. refl))

  revoke_credential-Keeps : I (revoke_credential (record r { claims = some c }) s).1.db
  unfolding revoke_credential
  revoke_credential-Keeps = behind _ (λ q t e o.
      reads-Keeps I (or_refuse (lib.parse (r.path_value (codes "credId"))) _) _ t (ground arith)
        (same-Keeps I s.db t.db i e)
        (λ k t' f.
          last (revoke_credentials k q) _ t' (f ∙ e) (λ id now. w.revokes_credentials q k id now o)
            (λ a t''. ground arith)))

  at_db : (t : Store) → t.db ≡ s.db → I t.db
  at_db t e = same-Keeps I s.db t.db i e

  -- The transaction of a creation, and a handler that only answers after it.
  transaction {ℓ} :
      {A : Type ℓ} (limit : ℕ) (count : Db → ℕ) (full begin_error error : Reply)
      (f : Uuid → Time → Db → Option (A × Db)) (g : A × Db → Option (Unit {0}) → M Reply)
      (t : Store)
      → t.db ≡ s.db
      → (Below limit (count s.db) → (id : Uuid) (now : Time) → Result I (f id now s.db))
      → ((x : A × Db) (a : Option (Unit {0})) (t' : Store) → (g x a t').1.db ≡ t'.db)
      → I
          ((query (λ _. tt) >>= λ begun.
              or_refuse begun begin_error
              >> (within_limit limit count full >>= λ alive.
                  prepare alive f >>= λ made. or_refuse made error >>= λ x. commit x.1 >>= g x))
            t).1.db
  transaction {A = A} limit count full begin_error error f g t e h same =
      let committed : Option (A × Db) → M Reply =
        λ made. or_refuse made error >>= λ x. commit x.1 >>= g x in
      let prepared : Bool → M Reply = λ alive. prepare alive f >>= committed in
      let counted : M Reply = within_limit limit count full >>= prepared in
      reads-Keeps I (query (λ _. tt)) (λ begun. or_refuse begun begin_error >> counted) t refl
        (at_db t e)
        (λ begun t0 e0.
          reads-Keeps I (or_refuse begun begin_error) (λ _. counted) t0 (ground arith)
            (at_db t0 (e0 ∙ e))
            (λ _ t1 e1.
              within_limit-Keeps I limit count full prepared t1 (at_db t1 (e1 ∙ e0 ∙ e))
                (λ alive t2 e2 below.
                  prepare-Keeps I alive f committed t2
                    (λ live id now.
                      rw (e2 ∙ e1 ∙ e0 ∙ e) (h (rw (sym (e1 ∙ e0 ∙ e)) (below live)) id now))
                    (λ o t3 e3 res.
                      commit-Keeps I o error g t3 (at_db t3 (e3 ∙ e2 ∙ e1 ∙ e0 ∙ e)) res same))))

  create_project-Keeps :
      ⦃json : BodyJson⦄
      → (suffix : Uuid) → I (create_project suffix (record r { claims = some c }) s).1.db
  unfolding create_project
  create_project-Keeps ⦃json⦄ suffix =
      reads-Keeps I (or_refuse (json.name r.body) _) _ s (ground arith) i (λ name t e.
        reads-Keeps I (refuse_if (is_empty name) _) _ t (ground arith) (at_db t e) (λ _ t' e'.
          transaction (limits c.plan).max_projects (active_projects c.user_id) full_projects _ _
            (insert_project c.user_id name (generate_slug suffix name)) _ t' (e' ∙ e)
            (λ b id now. w.inserts_project name (generate_slug suffix name) id now b)
            (λ x a t''. ground arith)))

  create_key-Keeps :
      ⦃crypto : CryptoLib⦄ ⦃json : BodyJson⦄
      → (random : Bytes) → I (create_key random (record r { claims = some c }) s).1.db
  unfolding create_key
  create_key-Keeps ⦃crypto⦄ ⦃json⦄ random = behind _ (λ q t e o.
      let (full, prefix, hash) = generate_key random in
      reads-Keeps I (or_refuse (name_or_none (json.name r.body)) _) _ t (ground arith) (at_db t e)
        (λ name t' e'.
          transaction (limits c.plan).max_keys (active_keys q) full_keys _ _
            (insert_key q hash prefix name) _ t' (e' ∙ e)
            (λ b id now. w.inserts_key q hash prefix name id now o b) (λ x a t''. ground arith)))

  add_credential-Keeps :
      ⦃crypto : CryptoLib⦄ ⦃json : BodyJson⦄
      → (enc_key : Bytes) (nonce : Option Bytes)
      → I (add_credential enc_key nonce (record r { claims = some c }) s).1.db
  unfolding add_credential
  add_credential-Keeps ⦃crypto⦄ ⦃json⦄ enc_key nonce = behind _ (λ q t e o.
      reads-Keeps I (or_refuse (json.credential r.body) _) _ t (ground arith) (at_db t e)
        (λ x t0 e0.
          reads-Keeps I (refuse_if (is_empty x.1) _) _ t0 (ground arith) (at_db t0 (e0 ∙ e))
            (λ _ t1 e1.
              reads-Keeps I (refuse_if (not (is_provider x.0)) _) _ t1 (ground arith)
                (at_db t1 (e1 ∙ e0 ∙ e))
                (λ _ t2 e2.
                  reads-Keeps I (or_refuse (ok_or_none (encrypt nonce enc_key x.1)) _) _ t2
                    (ground arith) (at_db t2 (e2 ∙ e1 ∙ e0 ∙ e))
                    (λ sealed t3 e3.
                      last (upsert_credential q x.0 sealed) _ t3 (e3 ∙ e2 ∙ e1 ∙ e0 ∙ e)
                        (λ id now. w.upserts_credential q x.0 sealed id now o)
                        (λ a t'. ground arith))))))

  upsert_budget-Keeps :
      ⦃fl : FloatOps⦄ ⦃json : BodyJson⦄
      → (stored : Float64 → Float64)
      → I (upsert_budget stored (record r { claims = some c }) s).1.db
  unfolding upsert_budget
  upsert_budget-Keeps ⦃fl⦄ ⦃json⦄ stored = behind _ (λ q t e o.
      reads-Keeps I (or_refuse (json.budget r.body) _) _ t (ground arith) (at_db t e) (λ x t0 e0.
        reads-Keeps I (refuse_if (not (is_period x.1)) _) _ t0 (ground arith) (at_db t0 (e0 ∙ e))
          (λ _ t1 e1.
            reads-Keeps I (refuse_if (fl.le x.0 (fl.literal 0 1)) _) _ t1 (ground arith)
              (at_db t1 (e1 ∙ e0 ∙ e))
              (λ _ t2 e2.
                last (upsert_budget_row q (stored x.0) x.1 x.2) _ t2 (e2 ∙ e1 ∙ e0 ∙ e)
                  (λ id now. w.upserts_budget q (stored x.0) x.1 x.2 id now o)
                  (λ a t'. ground arith)))))

  list_usage-Keeps :
      (atoi : Bytes → ℕ) (now : Time)
      → I (list_usage atoi now (record r { claims = some c }) s).1.db
  unfolding list_usage
  list_usage-Keeps atoi now = behind _ (λ q t e o. same-Keeps I s.db _ i (ground arith))

  summarise_usage-Keeps :
      ⦃group : Grouping⦄ (now : Time)
      → I (summarise_usage now (record r { claims = some c }) s).1.db
  unfolding summarise_usage
  summarise_usage-Keeps now = behind _ (λ q t e o. same-Keeps I s.db _ i (ground arith))

  list_projects-Keeps : I (list_projects (record r { claims = some c }) s).1.db
  unfolding list_projects
  list_projects-Keeps = same-Keeps I s.db _ i (ground arith)

  me-Keeps : I (me (record r { claims = some c }) s).1.db
  unfolding me
  me-Keeps = i

  module _ ⦃fl : FloatOps⦄ ⦃crypto : CryptoLib⦄ ⦃bcrypt : Bcrypt⦄ ⦃jwt : Jwt⦄ ⦃json : BodyJson⦄
      ⦃group : Grouping⦄ where
    pub handler_of-Keeps :
        (route : Route) (x : Inputs) → I (handler_of route x (record r { claims = some c }) s).1.db
    unfolding handler_of
    handler_of-Keeps Route.auth_me x = me-Keeps
    handler_of-Keeps Route.projects_list x = list_projects-Keeps
    handler_of-Keeps Route.projects_create x = create_project-Keeps x.slug_id
    handler_of-Keeps Route.projects_get x = get_project-Keeps
    handler_of-Keeps Route.projects_delete x = delete_project-Keeps
    handler_of-Keeps Route.keys_list x = list_keys-Keeps
    handler_of-Keeps Route.keys_create x = create_key-Keeps x.random
    handler_of-Keeps Route.keys_revoke x = revoke_key-Keeps
    handler_of-Keeps Route.creds_list x = list_credentials-Keeps
    handler_of-Keeps Route.creds_add x = add_credential-Keeps x.enc_key x.nonce
    handler_of-Keeps Route.creds_revoke x = revoke_credential-Keeps
    handler_of-Keeps Route.budgets_get x = get_budgets-Keeps x.spend x.now
    handler_of-Keeps Route.budgets_upsert x = upsert_budget-Keeps x.stored
    handler_of-Keeps Route.budgets_delete x = delete_budget-Keeps
    handler_of-Keeps Route.usage_summary x = summarise_usage-Keeps x.now
    handler_of-Keeps Route.usage_list x = list_usage-Keeps x.atoi x.now
