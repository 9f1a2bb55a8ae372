-- ===== src/Api/Db/Keeps.antt =====
-- Rules for the statements of a handler, one for each, about a predicate of the tables that it keeps.
use airelay.Base.{
  ℕ, zero, suc, ◌<◌, ◌≡◌, ◌⊎◌, inl, inr, refl, Bool, true, false, ◌&&◌, Option, none, some, leb,
  if◌then◌else◌, arith, Bool-cases,
}
use airelay.Time.{Time}
use airelay.Uuid.{Uuid}
use airelay.Api.Http.{Reply}
use airelay.Api.Db.{
  Db, Store, Flow, stop, next, M, bind_flow, ◌>>=◌, settle, execute, prepare, within_limit, commit,
  or_refuse,
}

leb_zero : (n : ℕ) → leb (suc n) 0 ≡ false
leb_zero n = ground arith

module _ (I : Db → Type 0) where
  -- What a statement that ran leaves; one that did not run leaves the tables.
  abbrev pub Result {ℓ} : {A : Type ℓ} → Option (A × Db) → Type 0
  Result none = Unit
  Result (some (_, db)) = I db

  pub same-Keeps : (db db' : Db) → I db → db' ≡ db → I db'
  same-Keeps db db' i e = rw e i

  if-Result {ℓ} :
      {A : Type ℓ} (b : Bool) (o : Option (A × Db))
      → (b ≡ true → Result o)
      → Result (if b then o else none)
  if-Result true o h = h refl
  if-Result false o h = tt

  pub unless-Result {ℓ} :
      {A : Type ℓ} (b : Bool) (x : A × Db) → I x.1 → Result (if b then none else some x)
  unless-Result true x h = tt
  unless-Result false x h = h

  module _ {ℓ κ} {A : Type ℓ} {B : Type κ} where
    bind_flow-Keeps :
        (f : Flow A) (k : A → M B) (t : Store)
        → I t.db
        → ((a : A) → I (k a t).1.db)
        → I (bind_flow f k t).1.db
    bind_flow-Keeps (stop r) k t i h = i
    bind_flow-Keeps (next a) k t i h = h a

    -- A part that reads, and what comes after it.
    pub reads-Keeps :
        (m : M A) (k : A → M B) (t : Store)
        → (m t).1.db ≡ t.db
        → I t.db
        → ((a : A) (t' : Store) → t'.db ≡ t.db → I (k a t').1.db)
        → I ((m >>= k) t).1.db
    reads-Keeps m k t e i h = bind_flow-Keeps (m t).0 k (m t).1 (rw e i) (λ a. h a (m t).1 e)

    settle-Keeps :
        (o : Option (A × Db)) (k : Option A → M B) (t : Store)
        → I t.db
        → Result o
        → ((a : Option A) (t' : Store) → I t'.db → I (k a t').1.db)
        → I (bind_flow (settle o t).0 k (settle o t).1).1.db
    settle-Keeps none k t i r h = h none t i
    settle-Keeps (some (a, db)) k t i r h = h (some a) (record t { db = db }) r

    pub execute-Keeps :
        (f : Uuid → Time → Db → Option (A × Db)) (k : Option A → M B) (t : Store)
        → I t.db
        → ((id : Uuid) (now : Time) → Result (f id now t.db))
        → ((a : Option A) (t' : Store) → I t'.db → I (k a t').1.db)
        → I ((execute f >>= k) t).1.db
    execute-Keeps f k t i r h =
        let o = t.script 0 in
        settle-Keeps (if o.ok then f o.id o.now t.db else none) k
          (record t { script = λ n. t.script (suc n) }) i
          (if-Result o.ok (f o.id o.now t.db) (λ _. r o.id o.now)) h

    -- The statement runs in a transaction that is alive, and its result awaits the commit.
    pub prepare-Keeps :
        (alive : Bool) (f : Uuid → Time → Db → Option (A × Db)) (k : Option (A × Db) → M B)
        (t : Store)
        → (alive ≡ true → (id : Uuid) (now : Time) → Result (f id now t.db))
        → ((o : Option (A × Db)) (t' : Store) → t'.db ≡ t.db → Result o → I (k o t').1.db)
        → I ((prepare alive f >>= k) t).1.db
    prepare-Keeps alive f k t r h =
        let o = t.script 0 in
        h (if alive && o.ok then f o.id o.now t.db else none)
          (record t { script = λ n. t.script (suc n) }) refl
          (if-Result (alive && o.ok) (f o.id o.now t.db) (λ e. r (ground arith) o.id o.now))

  -- Behind a plan's limit, a transaction that is alive has counted fewer.
  pub within_limit-Keeps {ℓ} :
      {B : Type ℓ} (limit : ℕ) (count : Db → ℕ) (full : Reply) (k : Bool → M B) (t : Store)
      → I t.db
      → ((alive : Bool) (t' : Store)
          → t'.db ≡ t.db
          → (alive ≡ true → (limit ≡ 0) ⊎ (count t.db < limit))
          → I (k alive t').1.db)
      → I ((within_limit limit count full >>= k) t).1.db
  unfolding within_limit
  within_limit-Keeps zero count full k t i h = h true t refl (λ _. inl refl)
  within_limit-Keeps (suc n) count full k t i h = elim (Bool-cases (t.script 0).ok) [
    | inr e ↦ rw e i
    | inl e ↦ elim (Bool-cases (t.script 1).ok) [
      | inr f ↦ rw (e, f, leb_zero n) (h false _ refl (λ x. ground arith))
      | inl f ↦ elim (Bool-cases (leb (suc n) (count t.db))) [
        | inl g ↦ rw (e, f, g) i
        | inr g ↦ rw (e, f, g) (h true _ refl (λ _. inr (ground arith)))
      ]
    ]
  ]

  -- A result that awaits the commit, and a handler that only answers after that.
  pub commit-Keeps {ℓ} :
      {A : Type ℓ} (o : Option (A × Db)) (refusal : Reply)
      (g : A × Db → Option (Unit {0}) → M Reply) (t : Store)
      → I t.db
      → Result o
      → ((x : A × Db) (a : Option (Unit {0})) (t' : Store) → (g x a t').1.db ≡ t'.db)
      → I ((or_refuse o refusal >>= λ x. commit x.1 >>= g x) t).1.db
  commit-Keeps none refusal g t i r h = i
  commit-Keeps (some x) refusal g t i r h =
      execute-Keeps (λ _ _ _. some (tt, x.1)) (g x) t i (λ _ _. r)
        (λ a t' j. same-Keeps t'.db _ j (h x a t'))
