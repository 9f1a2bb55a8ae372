-- ===== src/Api/Db.antt =====
-- The tables that the management API and the proxy share, and how a handler runs its statements on
-- them. The rows are those of internal/models. A script says how each statement of a request ends:
-- whether Postgres runs it, and the id and the time that it gives a new row.
pub mod Keeps
use airelay.Base.{
  ℕ, zero, suc, ◌&&◌, leb, codes, Bool, true, false, not, Option, none, some, List, Bytes,
  if◌then◌else◌,
}
use airelay.Time.{Time}
use airelay.Uuid.{Uuid}
use airelay.Models.{User, Project, ApiKey, ProviderCredential, Budget, UsageEvent, ModelPricing}
use airelay.Api.Http.{Reply, write_error}

pub record Db : Type 0 where
  pub users : List User
  pub projects : List Project
  pub api_keys : List ApiKey
  pub provider_credentials : List ProviderCredential
  pub budgets : List Budget
  pub usage_events : List UsageEvent
  pub model_pricing : List ModelPricing

pub record Outcome : Type 0 where
  pub ok : Bool
  pub id : Uuid
  pub now : Time

pub record Store : Type 0 where
  pub db : Db
  pub script : ℕ → Outcome

-- A handler returns early with a reply, or goes on with a value.
pub data Flow {ℓ} (A : Type ℓ) : Type ℓ where
  stop : Reply → Flow A
  next : A → Flow A

abbrev pub M {ℓ} : Type ℓ → Type ℓ
M A = Store → Flow A × Store

abbrev pub bind_flow {ℓ κ} : {A : Type ℓ} {B : Type κ} → Flow A → (A → M B) → M B
bind_flow (stop r) f s = (stop r, s)
bind_flow (next a) f s = f a s

infixl 5 ◌>>=◌ ◌>>◌
abbrev pub ◌>>=◌ {ℓ κ} : {A : Type ℓ} {B : Type κ} → M A → (A → M B) → M B
◌>>=◌ m f s = bind_flow (m s).0 f (m s).1

abbrev pub ◌>>◌ {ℓ} : {B : Type ℓ} → M (Unit {0}) → M B → M B
m >> k = m >>= λ _. k

abbrev pub pure {ℓ} : {A : Type ℓ} → A → M A
pure a s = (next a, s)

abbrev pub refuse {ℓ} : {A : Type ℓ} → Reply → M A
refuse r s = (stop r, s)

abbrev pub refuse_if : Bool → Reply → M (Unit {0})
refuse_if true r = refuse r
refuse_if false r = pure tt

abbrev pub or_refuse {ℓ} : {A : Type ℓ} → Option A → Reply → M A
or_refuse none r = refuse r
or_refuse (some a) r = pure a

abbrev pub reply_of : Flow Reply → Reply
reply_of (stop r) = r
reply_of (next r) = r

abbrev pub is_none {ℓ} : {A : Type ℓ} → Option A → Bool
is_none none = true
is_none (some _) = false

module _ {ℓ} {A : Type ℓ} where
  -- A statement that changes nothing; `none` is an error.
  abbrev pub query : (Db → A) → M (Option A)
  query f s = (
    next (if (s.script 0).ok then some (f s.db) else none),
    record s { script = λ n. s.script (suc n) },
  )

  -- What a statement that ran leaves; `none` is a constraint that it broke.
  abbrev pub settle : Option (A × Db) → Store → Flow (Option A) × Store
  settle none s = (next none, s)
  settle (some (a, db)) s = (next (some a), record s { db = db })

  -- A statement that changes the tables, given the id and the time of a new row.
  abbrev pub execute : (Uuid → Time → Db → Option (A × Db)) → M (Option A)
  execute f s =
      let o = s.script 0 in
      settle (if o.ok then f o.id o.now s.db else none)
        (record s { script = λ n. s.script (suc n) })

  -- A statement in a transaction that is still alive: what it leaves for the commit. In an aborted
  -- one Postgres refuses every statement.
  abbrev pub prepare : Bool → (Uuid → Time → Db → Option (A × Db)) → M (Option (A × Db))
  prepare alive f s =
      let o = s.script 0 in
      (
        next (if alive && o.ok then f o.id o.now s.db else none),
        record s { script = λ n. s.script (suc n) },
      )

-- tx.Commit(ctx); a transaction that is not committed is rolled back.
abbrev pub commit : Db → M (Option (Unit {0}))
commit db = execute (λ _ _ _. some (tt, db))

abbrev or_zero : Option ℕ → ℕ
or_zero none = 0
or_zero (some n) = n

-- The check of a plan's limit in a transaction, with the advisory lock; 0 is no limit. An error of
-- the count is not read, but it aborts the transaction: the result says whether that is alive.
unfoldable pub within_limit : ℕ → (Db → ℕ) → Reply → M Bool
within_limit zero count full = pure true
within_limit (suc n) count full = do
  locked ← query (λ _. tt)
  or_refuse locked (write_error 500 (codes "could not acquire lock"))
  counted ← query count
  refuse_if (leb (suc n) (or_zero counted)) full
  pure (not (is_none counted))
