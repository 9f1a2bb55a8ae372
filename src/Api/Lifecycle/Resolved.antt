-- ===== src/Api/Lifecycle/Resolved.antt =====
-- From a credential that a user adds to what the proxy resolves a key to.
use airelay.Base.{
  ◌≤◌, ◌≡◌, refl, ap, ◌∙◌, true, false, none, some, List, Bytes, codes, length, any, find, ◌==◌,
}
use airelay.Uuid.{Uuid, UuidLib}
use airelay.Models.{ProviderCredential, AiProvider}
use airelay.Encrypt.{CryptoLib, CryptoLaws, ok, nonce_size, encrypt, decrypt-encrypt}
use airelay.Proxy.Backend.{Backend}
use airelay.Proxy.Auth.{resolve_from_db, lookup_of_row, decrypted}
use airelay.Api.Http.{Reply, Claims, Request, BodyJson}
use airelay.Api.Db.{Db, Store, next}
use airelay.Api.Projects.{owned, is_empty, project_from_path}
use airelay.Api.Credentials.{is_current, is_provider, upsert_credential, add_credential}
use airelay.Api.Lifecycle.{row_for, credential_in, credential_query}
use airelay.Api.Lifecycle.Stored.{left, upsert_found_lem, find-left, current-row}
use airelay.Api.Lifecycle.Created.{owned-any}

-- The hash is that of a live key of the project, and of no other: for whatever credentials, the join
-- gives that key's row.
abbrev pub IsLiveKey : Bytes → Uuid → Uuid → Db → Type 0
IsLiveKey hash id project db =
    (provider : AiProvider) (creds : List ProviderCredential)
    → credential_in hash provider creds db.api_keys
      ≡ row_for id project (find (is_current project provider) creds) none

module _ ⦃lib : UuidLib⦄ ⦃crypto : CryptoLib⦄ ⦃json : BodyJson⦄ where
  add_credential-credential_query :
      (r : Request) (c : Claims) (s : Store) (project k : Uuid)
      (provider key hash nonce enc_key sealed : Bytes)
      → lib.parse (r.path_value (codes "id")) ≡ some project
      → json.credential r.body ≡ some (provider, key)
      → is_empty key ≡ false
      → is_provider provider ≡ true
      → encrypt (some nonce) enc_key key ≡ ok sealed
      → (s.script 0).ok ≡ true
      → (s.script 1).ok ≡ true
      → owned project c.user_id s.db ≡ true
      → any (λ x. x.id == (s.script 1).id) s.db.provider_credentials ≡ false
      → IsLiveKey hash k project s.db
      → let (flow, s') = add_credential enc_key (some nonce) (record r { claims = some c }) s in
        ((reply : Reply) × (flow ≡ next reply) × (reply.status ≡ 201))
        × (credential_query hash provider s'.db
            ≡ some (record {
              api_key_id = k;
              project_id = project;
              provider = provider;
              encrypted_key = sealed;
            }))
  unfolding add_credential project_from_path upsert_credential credential_query
  add_credential-credential_query r c s project k provider key hash nonce enc_key sealed e b nk isp
        enc ok0 ok1 o new live =
      let o1 = s.script 1 in
      let found = find (is_current project provider) s.db.provider_credentials in
      let stored =
        upsert_found_lem project provider sealed o1.id o1.now s.db found new
          (owned-any project c.user_id s.db o) in
      let there =
        find-left project provider sealed o1.id o1.now found s.db.provider_credentials refl in
      rw (e, ok0, o, b, nk, isp, enc, ok1, stored)
        (
          (_, refl, refl),
          live provider (left project provider sealed o1.id o1.now found s.db.provider_credentials)
              ∙ ap (λ x. row_for k project x none) there
              ∙ current-row project provider sealed o1.id k o1.now found s.db.provider_credentials
                  refl,
        )

module _ {W : Type 0} ⦃be : Backend W⦄ ⦃lib : UuidLib⦄ ⦃crypto : CryptoLib⦄ ⦃json : BodyJson⦄ where
  -- Where a user adds a credential to a project of the user's, with a key that is not empty, one of
  -- the three providers, an encryption key of at least 16 bytes and statements that run, the reply is
  -- 201; and the proxy, when Postgres answers its query from the tables that this leaves and it
  -- has the same encryption key, resolves a live key of the project to exactly the key that the user
  -- gave, also if it replaces an earlier one.
  pub add_credential-resolve_from_db :
      (laws : CryptoLaws crypto) (r : Request) (c : Claims) (s : Store) (project k : Uuid)
      (provider key hash nonce enc_key : Bytes) (w : W)
      → lib.parse (r.path_value (codes "id")) ≡ some project
      → json.credential r.body ≡ some (provider, key)
      → is_empty key ≡ false
      → is_provider provider ≡ true
      → length nonce ≡ nonce_size
      → 16 ≤ length enc_key
      → (s.script 0).ok ≡ true
      → (s.script 1).ok ≡ true
      → owned project c.user_id s.db ≡ true
      → any (λ x. x.id == (s.script 1).id) s.db.provider_credentials ≡ false
      → IsLiveKey hash k project s.db
      → let (flow, s') = add_credential enc_key (some nonce) (record r { claims = some c }) s in
        (be.db_credential hash provider w).0 ≡ credential_query hash provider s'.db
        → ((reply : Reply) × (flow ≡ next reply) × (reply.status ≡ 201))
          × ((resolve_from_db enc_key hash provider w).0
              ≡ some (record {
                api_key_id = k;
                project_id = project;
                provider = provider;
                plain_key = key;
              }))
  unfolding resolve_from_db lookup_of_row decrypted
  add_credential-resolve_from_db laws r c s project k provider key hash nonce enc_key w e b nk isp
        ln lk ok0 ok1 o new live answers =
      let (sealed, enc, dec) = decrypt-encrypt laws nonce enc_key key ln lk in
      let (replied, row) =
        add_credential-credential_query r c s project k provider key hash nonce enc_key sealed e b
          nk isp enc ok0 ok1 o new live in
      (replied, rw (answers ∙ row, dec) refl)
