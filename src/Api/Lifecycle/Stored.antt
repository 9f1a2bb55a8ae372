-- ===== src/Api/Lifecycle/Stored.antt =====
-- A credential from the API to the proxy.
use airelay.Base.{
  ◌≡◌, refl, sym, inl, inr, Bool, true, false, Option, none, some, List, [], ◌∷◌, ◌++◌, Bytes,
  bytes_eq_refl, bytes_eq_iff, ◌==◌, ==_refl, any, find, update_where, arith, Bool-cases,
}
use airelay.Time.{Time}
use airelay.Uuid.{Uuid}
use airelay.Models.{ProviderCredential, AiProvider}
use airelay.Api.Db.{Db}
use airelay.Api.Credentials.{is_current, upsert_found}
use airelay.Api.Lifecycle.{row_for}

find-append_none :
    {A : Type 0} (p : A → Bool) (xs : List A) (x : A)
    → find p xs ≡ none
    → p x ≡ true
    → find p (xs ++ x ∷ []) ≡ some x
find-append_none p [] x h k = rw k refl
find-append_none p (y ∷ xs) x h k = ground (arith, find-append_none p xs x)

some_injective : {A : Type 0} {x y : A} → some x ≡ some y → x ≡ y
some_injective e = cc

find-update_where :
    {A : Type 0} (p : A → Bool) (f : A → A) (xs : List A) (x : A)
    → ((y : A) → p y ≡ true → p (f y) ≡ true)
    → find p xs ≡ some x
    → find p (update_where p f xs) ≡ some (f x)
find-update_where p f [] x h k = ground arith
find-update_where p f (y ∷ xs) x h k = elim (Bool-cases (p y)) [
  | inl e ↦ let same : y ≡ x = some_injective (rw e at k) in rw (e, h y e, same) refl
  | inr e ↦ rw (e, e) (find-update_where p f xs x h (rw e at k))
]

pub find_sound : {A : Type 0} (p : A → Bool) (xs : List A) (x : A) → find p xs ≡ some x → p x ≡ true
find_sound p [] x h = ground arith
find_sound p (y ∷ xs) x h = elim (Bool-cases (p y)) [
  | inl e ↦ let same : y ≡ x = some_injective (rw e at h) in rw (sym same) e
  | inr e ↦ find_sound p xs x (rw e at h)
]

-- What an upsert gives and leaves, by the current row that it finds.
abbrev pub given : Uuid → Time → Option ProviderCredential → Uuid × Time
given id now none = (id, now)
given id now (some c) = (c.id, c.created_at)

abbrev pub current :
    Uuid → AiProvider → Bytes → Uuid → Time → Option ProviderCredential → ProviderCredential
current project provider key id now none = record {
  id = id;
  project_id = project;
  provider = provider;
  encrypted_key = key;
  revoked_at = none;
  created_at = now;
}
current project provider key id now (some c) = record c { encrypted_key = key; revoked_at = none }

abbrev pub left :
    Uuid
    → AiProvider
    → Bytes
    → Uuid
    → Time
    → Option ProviderCredential
    → List ProviderCredential
    → List ProviderCredential
left project provider key id now none creds = creds ++ current project provider key id now none ∷ []
left project provider key id now (some c) creds =
    update_where (is_current project provider)
      (λ x. record x { encrypted_key = key; revoked_at = none }) creds

pub upsert_found_lem :
    (project : Uuid) (provider : AiProvider) (key : Bytes) (id : Uuid) (now : Time) (db : Db)
    (found : Option ProviderCredential)
    → any (λ c. c.id == id) db.provider_credentials ≡ false
    → any (λ p. p.id == project) db.projects ≡ true
    → upsert_found project provider key id now found db
      ≡ some (
        given id now found,
        record db {
          provider_credentials = left project provider key id now found db.provider_credentials;
        },
      )
unfolding upsert_found
upsert_found_lem project provider key id now db none new there = rw (new, there) refl
upsert_found_lem project provider key id now db (some c) new there = refl

pub find-left :
    (project : Uuid) (provider : AiProvider) (key : Bytes) (id : Uuid) (now : Time)
    (found : Option ProviderCredential) (creds : List ProviderCredential)
    → find (is_current project provider) creds ≡ found
    → find (is_current project provider) (left project provider key id now found creds)
      ≡ some (current project provider key id now found)
find-left project provider key id now none creds h =
    find-append_none (is_current project provider) creds _ h
      (rw (==_refl project, bytes_eq_refl provider) refl)
find-left project provider key id now (some c) creds h =
    find-update_where (is_current project provider)
      (λ x. record x { encrypted_key = key; revoked_at = none }) creds c (λ x e. ground arith) h

-- The provider of a current row is the one that was asked for.
pub current-row :
    (project : Uuid) (provider : AiProvider) (key : Bytes) (id k : Uuid) (now : Time)
    (found : Option ProviderCredential) (creds : List ProviderCredential)
    → find (is_current project provider) creds ≡ found
    → row_for k project (some (current project provider key id now found)) none
      ≡ some (record {
        api_key_id = k;
        project_id = project;
        provider = provider;
        encrypted_key = key;
      })
current-row project provider key id k now none creds h = refl
current-row project provider key id k now (some c) creds h =
    let is = find_sound (is_current project provider) creds c h in
    let same : c.provider ≡ provider = (bytes_eq_iff c.provider provider).0 (ground arith) in
    rw same refl
