-- ===== src/Api/Server/Quota.antt =====
-- The plans' limits on the rows that a user has.
use airelay.Base.{
  ℕ, ◌≤◌, ◌≡◌, ◌⊎◌, inl, inr, sym, Bool-cases, ==_iff, Bool, true, false, ◌&&◌, Option, none, some,
  List, [], ◌∷◌, ◌++◌, Bytes, ◌==◌, find, count_where, update_where, count_where-append, arith,
}
use airelay.Float.{FloatOps, Float64}
use airelay.Time.{Time}
use airelay.Uuid.{Uuid, UuidLib}
use airelay.Models.{ProviderCredential, Budget}
use airelay.Encrypt.{CryptoLib}
use airelay.Api.Http.{Claims, Request, BodyJson}
use airelay.Api.Db.{Db, Store, is_none}
use airelay.Api.Db.Keeps.{Result, unless-Result}
use airelay.Api.Plans.{limits}
use airelay.Api.Projects.{active_projects, archive, insert_project}
use airelay.Api.Keys.{active_keys, insert_key, revoke_keys, is_active_key}
use airelay.Api.Credentials.{upsert_credential, upsert_found, is_current}
use airelay.Api.Budgets.{upsert_budget_row, upsert_over, is_budget_of}
use airelay.Api.Auth.{Bcrypt, Jwt}
use airelay.Api.Usage.{Grouping}
use airelay.Api.Server.{Route, Inputs, handler_of}
use airelay.Api.Server.Writes.{Writes, Below, handler_of-Keeps}

-- A limit that a count respects; 0 is no limit.
abbrev pub Within : ℕ → ℕ → Type 0
Within limit n = (limit ≡ 0) ⊎ (n ≤ limit)

-- The user's active projects, and the active keys of a project.
unfoldable pub QuotaKept : Claims → Uuid → Db → Type 0
QuotaKept c q db =
    Within (limits c.plan).max_projects (active_projects c.user_id db)
    × Within (limits c.plan).max_keys (active_keys q db)

count_where-update_where :
    {A : Type 0} (q p : A → Bool) (f : A → A) (xs : List A)
    → ((x : A) → q (f x) ≡ true → q x ≡ true)
    → count_where q (update_where p f xs) ≤ count_where q xs
count_where-update_where q p f [] h = omega arith
count_where-update_where q p f (x ∷ xs) h = ground (arith, count_where-update_where q p f xs h, h x)

Within-le : (limit n m : ℕ) → m ≤ n → Within limit n → Within limit m
Within-le limit n m h w = ground arith

-- A row more, where the count was below the limit.
count_where-insert :
    {A : Type 0} (p : A → Bool) (xs : List A) (x : A) (limit : ℕ)
    → Below limit (count_where p xs)
    → Within limit (count_where p (xs ++ x ∷ []))
count_where-insert p xs x limit b = ground (arith, count_where-append p xs (x ∷ []))

count_where-insert_other :
    {A : Type 0} (p : A → Bool) (xs : List A) (x : A)
    → p x ≡ false
    → count_where p (xs ++ x ∷ []) ≤ count_where p xs
count_where-insert_other p xs x h = ground (arith, count_where-append p xs (x ∷ []))

module _ (c : Claims) (q : Uuid) (db : Db) (h : QuotaKept c q db) where
  archive-Quota : (p id : Uuid) (now : Time) → Result (QuotaKept c q) (archive p id now db)
  unfolding QuotaKept
  archive-Quota p id now = (
    Within-le _ (active_projects c.user_id db) _
        (count_where-update_where (λ x. x.user_id == c.user_id && is_none x.archived_at)
          (λ x. x.id == p) (λ x. record x { archived_at = some now }) db.projects
          (λ x k. ground arith))
        h.0,
    h.1,
  )

  insert_project-Quota :
      (name slug : Bytes) (id : Uuid) (now : Time)
      → Below (limits c.plan).max_projects (active_projects c.user_id db)
      → Result (QuotaKept c q) (insert_project c.user_id name slug id now db)
  unfolding QuotaKept insert_project
  insert_project-Quota name slug id now b = unless-Result (QuotaKept c q) _ _ (
    count_where-insert (λ x. x.user_id == c.user_id && is_none x.archived_at) db.projects _ _ b,
    h.1,
  )

  insert_key-Quota :
      (p : Uuid) (hash prefix name : Bytes) (id : Uuid) (now : Time)
      → Below (limits c.plan).max_keys (active_keys p db)
      → Result (QuotaKept c q) (insert_key p hash prefix name id now db)
  unfolding QuotaKept insert_key
  insert_key-Quota p hash prefix name id now b = unless-Result (QuotaKept c q) _ _ (
    h.0,
    elim (Bool-cases (p == q)) [
      | inl e ↦
          count_where-insert (λ x. x.project_id == q && is_none x.revoked_at) db.api_keys _ _
            (rw (sym ((==_iff p q).0 e)) b)
      | inr e ↦
          Within-le _ (active_keys q db) _
            (count_where-insert_other (λ x. x.project_id == q && is_none x.revoked_at) db.api_keys _
              (ground arith))
            h.1
    ],
  )

  revoke_keys-Quota :
      (p k id : Uuid) (now : Time) → Result (QuotaKept c q) (revoke_keys k p id now db)
  unfolding QuotaKept
  revoke_keys-Quota p k id now = (
    h.0,
    Within-le _ (active_keys q db) _
        (count_where-update_where (λ x. x.project_id == q && is_none x.revoked_at)
          (is_active_key k p) (λ x. record x { revoked_at = some now }) db.api_keys
          (λ x e. ground arith))
        h.1,
  )

  upsert_found-Quota :
      (p : Uuid) (provider key : Bytes) (id : Uuid) (now : Time) (found : Option ProviderCredential)
      → Result (QuotaKept c q) (upsert_found p provider key id now found db)
  unfolding QuotaKept upsert_found
  upsert_found-Quota p provider key id now none = unless-Result (QuotaKept c q) _ _ h
  upsert_found-Quota p provider key id now (some x) = h

  upsert_over-Quota :
      (p : Uuid) (amount : Float64) (period : Bytes) (hard : Bool) (id : Uuid) (now : Time)
      (found : Option Budget)
      → Result (QuotaKept c q) (upsert_over p amount period hard id now found db)
  unfolding QuotaKept upsert_over
  upsert_over-Quota p amount period hard id now none = unless-Result (QuotaKept c q) _ _ h
  upsert_over-Quota p amount period hard id now (some x) = h

  Writes-Quota : Writes (QuotaKept c q) c db
  unfolding QuotaKept upsert_credential upsert_budget_row
  Writes-Quota = record {
    archives = λ p id now o. archive-Quota p id now;
    inserts_project = insert_project-Quota;
    inserts_key = λ p hash prefix name id now o b. insert_key-Quota p hash prefix name id now b;
    revokes_keys = λ p k id now o. revoke_keys-Quota p k id now;
    upserts_credential = λ p provider key id now o.
        upsert_found-Quota p provider key id now
          (find (is_current p provider) db.provider_credentials);
    revokes_credentials = λ p k id now o. h;
    upserts_budget = λ p amount period hard id now o.
        upsert_over-Quota p amount period hard id now (find (is_budget_of p period) db.budgets);
    deletes_budgets = λ p period id now o. h;
  }

module _ ⦃fl : FloatOps⦄ ⦃lib : UuidLib⦄ ⦃crypto : CryptoLib⦄ ⦃bcrypt : Bcrypt⦄ ⦃jwt : Jwt⦄
    ⦃json : BodyJson⦄ ⦃group : Grouping⦄ where
  -- Where a user's active projects and the active keys of a project are within the limits of the
  -- plan in the user's claims, every request of that user to a guarded route, however its statements
  -- end, leaves them within the limits.
  pub handler_of-QuotaKept :
      (route : Route) (x : Inputs) (r : Request) (c : Claims) (q : Uuid) (s : Store)
      → QuotaKept c q s.db
      → QuotaKept c q (handler_of route x (record r { claims = some c }) s).1.db
  handler_of-QuotaKept route x r c q s h =
      handler_of-Keeps (QuotaKept c q) r c s h (Writes-Quota c q s.db h) route x
