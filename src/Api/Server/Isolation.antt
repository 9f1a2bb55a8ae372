-- ===== src/Api/Server/Isolation.antt =====
-- What a request leaves of a project that its user does not own.
use airelay.Base.{◌≡◌, refl, true, false, some, ◌==◌, any, find, arith}
use airelay.Float.{FloatOps}
use airelay.Uuid.{Uuid, UuidLib}
use airelay.Encrypt.{CryptoLib}
use airelay.Api.Http.{Claims, Request, BodyJson}
use airelay.Api.Db.{Db, Store}
use airelay.Api.Projects.{owned}
use airelay.Api.Credentials.{upsert_credential, is_current}
use airelay.Api.Budgets.{upsert_budget_row, is_budget_of}
use airelay.Api.Auth.{Bcrypt, Jwt}
use airelay.Api.Usage.{Grouping}
use airelay.Api.Server.{Route, Inputs, handler_of}
use airelay.Api.Server.Writes.{Writes, handler_of-Keeps}
use airelay.Api.Server.Rows.{
  rows_of, Rows, eq-Rows, archive-keeps, insert_key-keeps, revoke_keys-keeps,
  upsert_credential-keeps, revoke_credentials-keeps, upsert_budget-keeps, delete_budgets-keeps,
  insert_project-keeps,
}

owned_ne :
    (p q user : Uuid) (db : Db)
    → owned p user db ≡ false
    → owned q user db ≡ true
    → (q == p) ≡ false
owned_ne p q user db h k = grind arith

Writes-Rows :
    (p : Uuid) (c : Claims) (db : Db)
    → any (λ x. x.id == p) db.projects ≡ true
    → owned p c.user_id db ≡ false
    → Writes (Rows p db) c db
unfolding upsert_credential upsert_budget_row
Writes-Rows p c db there h =
    let same = eq-Rows p db db refl in
    let ne : (q : Uuid) → owned q c.user_id db ≡ true → (q == p) ≡ false =
      λ q o. owned_ne p q c.user_id db h o in
    record {
      archives = λ q id now o. archive-keeps p q db db (ne q o) same id now;
      inserts_project =
          λ name slug id now b. insert_project-keeps p db db c.user_id name slug id now there same;
      inserts_key = λ q hash prefix name id now o b.
          insert_key-keeps p q db db (ne q o) same hash prefix name id now;
      revokes_keys = λ q k id now o. revoke_keys-keeps p q db db (ne q o) same k id now;
      upserts_credential = λ q provider key id now o.
          upsert_credential-keeps p q db db (ne q o) same provider key id now
            (find (is_current q provider) db.provider_credentials);
      revokes_credentials =
          λ q k id now o. revoke_credentials-keeps p q db db (ne q o) same k id now;
      upserts_budget = λ q amount period hard id now o.
          upsert_budget-keeps p q db db (ne q o) same amount period hard id now
            (find (is_budget_of q period) db.budgets);
      deletes_budgets =
          λ q period id now o. delete_budgets-keeps p q db db (ne q o) same period id now;
    }

module _ ⦃fl : FloatOps⦄ ⦃lib : UuidLib⦄ ⦃crypto : CryptoLib⦄ ⦃bcrypt : Bcrypt⦄ ⦃jwt : Jwt⦄
    ⦃json : BodyJson⦄ ⦃group : Grouping⦄ where
  -- Whatever a user asks of a guarded route, with any path, query and body and however its statements
  -- end, the rows of a project that is not an active one of the user's own stay as they were: the
  -- project's own row, its keys, its credentials and its budgets.
  pub handler_of-isolates :
      (route : Route) (x : Inputs) (r : Request) (c : Claims) (s : Store) (p : Uuid)
      → any (λ q. q.id == p) s.db.projects ≡ true
      → owned p c.user_id s.db ≡ false
      → rows_of p (handler_of route x (record r { claims = some c }) s).1.db ≡ rows_of p s.db
  unfolding Rows
  handler_of-isolates route x r c s p there h =
      handler_of-Keeps (Rows p s.db) r c s (eq-Rows p s.db s.db refl) (Writes-Rows p c s.db there h)
        route x
