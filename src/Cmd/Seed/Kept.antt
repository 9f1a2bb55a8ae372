-- ===== src/Cmd/Seed/Kept.antt =====
-- What the later statements of the seed leave alone.
use airelay.Base.{
  suc, ◌≡◌, refl, ◌∙◌, inl, inr, Bool, true, false, not, ◌||◌, Option, none, some, List, [], ◌∷◌,
  ◌++◌, Bytes, bytes_eq_iff, ◌==◌, any, find, update_where, if◌then◌else◌, Bool-cases, arith,
}
use airelay.Float.{Float64}
use airelay.Time.{Time}
use airelay.Uuid.{Uuid}
use airelay.Models.{ProviderCredential, provider_openai, provider_anthropic, period_monthly}
use airelay.Api.Db.{Db, Store}
use airelay.Api.Db.Keeps.{Result}
use airelay.Api.Credentials.{is_current, upsert_found}
use airelay.Api.Budgets.{upsert_over, is_budget_of}
use airelay.Api.Lifecycle.{row_for, credential_in}
use airelay.Cmd.Seed.{goes, M, ◌>>=◌, exec, leave, insert_budget}

-- A part of the seed goes on with a value, and leaves tables of a kind.
abbrev pub Ends {ℓ} : {A : Type ℓ} → A → (Db → Type 0) → M A → Store → Type ℓ
Ends v I m s = ((m s).0 ≡ goes v) × I (m s).1.db

module _ {A B : Type 0} (v : B) (I : Db → Type 0) where
  leave-Ends :
      (o : Option (A × Db)) (k : Option A → M B) (s : Store)
      → I s.db
      → Result I o
      → ((a : Option A) (t : Store) → I t.db → Ends v I (k a) t)
      → Ends v I (leave o >>= k) s
  leave-Ends none k s i r h = h none s i
  leave-Ends (some (a, db)) k s i r h = h (some a) (record s { db = db }) r

  if-Result : (b : Bool) (o : Option (A × Db)) → Result I o → Result I (if b then o else none)
  if-Result true o r = r
  if-Result false o r = tt

  pub exec-Ends :
      (f : Uuid → Time → Db → Option (A × Db)) (k : Option A → M B) (s : Store)
      → I s.db
      → ((id : Uuid) (now : Time) → Result I (f id now s.db))
      → ((a : Option A) (t : Store) → I t.db → Ends v I (k a) t)
      → Ends v I (exec f >>= k) s
  exec-Ends f k s i r h =
      let o = s.script 0 in
      leave-Ends (if o.ok then f o.id o.now s.db else none) k
        (record s { script = λ n. s.script (suc n) }) i
        (if-Result o.ok (f o.id o.now s.db) (r o.id o.now)) h

pub bind-Ends :
    {A B : Type 0} (a : A) (v : B) (I : Db → Type 0) (m : M A) (k : A → M B) (s : Store)
    → Ends a I m s
    → ((t : Store) → I t.db → Ends v I (k a) t)
    → Ends v I (m >>= k) s
bind-Ends a v I m k s (e, i) h = rw e (h (m s).1 i)

-- The project's current credential for OpenAI, and the key's rows for whatever credentials.
pub record IsSeeded (hash : Bytes) (key project : Uuid) (c : ProviderCredential) (db : Db)
    : Type 0 where
  pub credential : find (is_current project provider_openai) db.provider_credentials ≡ some c
  pub live :
      (creds : List ProviderCredential)
      → credential_in hash provider_openai creds db.api_keys
        ≡ row_for key project (find (is_current project provider_openai) creds) none

-- A credential for Anthropic hides none for OpenAI.
other_provider :
    (project : Uuid) (x : ProviderCredential)
    → x.provider ≡ provider_anthropic
    → is_current project provider_openai x ≡ false
other_provider project x e = rw e (ground arith)

find-append_some :
    (p : ProviderCredential → Bool) (creds : List ProviderCredential) (x c : ProviderCredential)
    → find p creds ≡ some c
    → find p (creds ++ x ∷ []) ≡ some c
find-append_some p [] x c h = cc
find-append_some p (y ∷ creds) x c h = elim (Bool-cases (p y)) [
  | inl f ↦ rw f (rw f at h)
  | inr f ↦ rw f (find-append_some p creds x c (rw f at h))
]

find-update_other :
    (project : Uuid) (f : ProviderCredential → ProviderCredential) (creds : List ProviderCredential)
    → ((x : ProviderCredential) → (f x).provider ≡ x.provider)
    → find
        (is_current project provider_openai)
        (update_where (is_current project provider_anthropic) f creds)
      ≡ find (is_current project provider_openai) creds
find-update_other project f [] h = refl
find-update_other project f (y ∷ creds) h =
    let rest = find-update_other project f creds h in
    elim (Bool-cases (is_current project provider_anthropic y)) [
      | inl e ↦
          let is : y.provider ≡ provider_anthropic =
            (bytes_eq_iff y.provider provider_anthropic).0 (ground arith) in
          rw (e, other_provider project y is, other_provider project (f y) (h y ∙ is)) rest
      | inr e ↦ rw (e, rest) refl
    ]

pub upsert_found-IsSeeded :
    (hash : Bytes) (k project : Uuid) (c : ProviderCredential) (key : Bytes) (id : Uuid)
    (now : Time) (db : Db) (found : Option ProviderCredential)
    → IsSeeded hash k project c db
    → Result
        (IsSeeded hash k project c)
        (upsert_found project provider_anthropic key id now found db)
unfolding upsert_found
upsert_found-IsSeeded hash k project c key id now db none is =
    elim (Bool-cases (
      any (λ x. x.id == id) db.provider_credentials
      || not (any (λ p. p.id == project) db.projects))) [
        | inl e ↦ rw e tt
        | inr e ↦ rw e (record {
          credential =
              find-append_some (is_current project provider_openai) db.provider_credentials _ c
                is.credential;
          live = is.live;
        })
      ]
upsert_found-IsSeeded hash k project c key id now db (some x) is = record {
  credential = find-update_other project _ db.provider_credentials (λ y. refl) ∙ is.credential;
  live = is.live;
}

pub insert_budget-IsSeeded :
    (hash : Bytes) (k project : Uuid) (c : ProviderCredential) (amount : Float64) (id : Uuid)
    (now : Time) (db : Db)
    → IsSeeded hash k project c db
    → Result (IsSeeded hash k project c) (insert_budget project amount id now db)
unfolding insert_budget upsert_over
insert_budget-IsSeeded hash k project c amount id now db is =
    elim (Bool-cases (any (is_budget_of project period_monthly) db.budgets)) [
      | inl e ↦ rw e is
      | inr e ↦
          elim (Bool-cases
            (any (λ b. b.id == id) db.budgets || not (any (λ p. p.id == project) db.projects))) [
              | inl f ↦ rw (e, f) tt
              | inr f ↦ rw (e, f) (record { credential = is.credential; live = is.live })
            ]
    ]
