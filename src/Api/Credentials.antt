-- ===== src/Api/Credentials.antt =====
-- api/credentials.go.
use airelay.Base.{
  Bool, ◌&&◌, ◌||◌, not, Option, none, some, List, [], ◌∷◌, ◌++◌, Bytes, codes, bytes_eq, ◌==◌,
  if◌then◌else◌, filter, any, find, update_where, sort_desc,
}
use airelay.Time.{Time, instant}
use airelay.Uuid.{Uuid, UuidLib}
use airelay.Models.{
  ProviderCredential, AiProvider, provider_openai, provider_anthropic, provider_google,
}
use airelay.Encrypt.{CryptoLib, Result, ok, err, encrypt}
use airelay.Api.Http.{
  text, object, array, instant_of, field, end, Items, nil, cons, Reply, write_json, write_error,
  no_content, Request, BodyJson,
}
use airelay.Api.Db.{Db, M, ◌>>=◌, ◌>>◌, pure, refuse_if, or_refuse, query, execute, is_none}
use airelay.Api.Projects.{is_empty, project_from_path}
use airelay.Api.Keys.{time_or_null, none_affected}

-- SELECT … FROM provider_credentials WHERE project_id=$1 ORDER BY created_at DESC
abbrev pub credentials_of : Uuid → Db → List ProviderCredential
credentials_of project db =
    sort_desc (λ c. instant c.created_at)
      (filter (λ c. c.project_id == project) db.provider_credentials)

-- The rows that the partial unique index keeps to one for a project and a provider.
abbrev pub is_current : Uuid → AiProvider → ProviderCredential → Bool
is_current project provider c =
    c.project_id == project && (bytes_eq c.provider provider && is_none c.revoked_at)

-- What the INSERT does when there is no current row, and the ON CONFLICT … DO UPDATE when there is.
unfoldable pub upsert_found :
    Uuid
    → AiProvider
    → Bytes
    → Uuid
    → Time
    → Option ProviderCredential
    → Db
    → Option ((Uuid × Time) × Db)
upsert_found project provider key id now none db =
    if any (λ c. c.id == id) db.provider_credentials || not (any (λ p. p.id == project) db.projects)
    then none
    else some (
      (id, now),
      record db {
        provider_credentials =
            db.provider_credentials
            ++ record {
              id = id;
              project_id = project;
              provider = provider;
              encrypted_key = key;
              revoked_at = none;
              created_at = now;
            }
              ∷ [];
      },
    )
upsert_found project provider key id now (some c) db = some (
  (c.id, c.created_at),
  record db {
    provider_credentials =
        update_where (is_current project provider)
          (λ x. record x { encrypted_key = key; revoked_at = none }) db.provider_credentials;
  },
)

unfoldable pub upsert_credential :
    Uuid → AiProvider → Bytes → Uuid → Time → Db → Option ((Uuid × Time) × Db)
unfolding upsert_found
upsert_credential project provider key id now db =
    upsert_found project provider key id now
      (find (is_current project provider) db.provider_credentials) db

-- UPDATE provider_credentials SET revoked_at=NOW() WHERE id=$1 AND project_id=$2 AND revoked_at IS
-- NULL, with whether a row was affected.
abbrev pub is_active_credential : Uuid → Uuid → ProviderCredential → Bool
is_active_credential id project c = c.id == id && (c.project_id == project && is_none c.revoked_at)

abbrev pub revoke_credentials : Uuid → Uuid → Uuid → Time → Db → Option (Bool × Db)
revoke_credentials id project _ now db = some (
  any (is_active_credential id project) db.provider_credentials,
  record db {
    provider_credentials =
        update_where (is_active_credential id project) (λ c. record c { revoked_at = some now })
          db.provider_credentials;
  },
)

abbrev pub is_provider : Bytes → Bool
is_provider p =
    bytes_eq p provider_openai || (bytes_eq p provider_anthropic || bytes_eq p provider_google)

abbrev pub ok_or_none : Result Bytes → Option Bytes
ok_or_none (ok s) = some s
ok_or_none (err e) = none

module _ ⦃lib : UuidLib⦄ where
  credential_rows : List ProviderCredential → Items
  credential_rows [] = nil
  credential_rows (c ∷ cs) =
      cons
        (object (
          field (codes "id") (text (lib.to_string c.id)) (
            field (codes "provider") (text c.provider) (
              field (codes "created_at") (instant_of c.created_at)
                (field (codes "revoked_at") (time_or_null c.revoked_at) end)))))
        (credential_rows cs)

  -- CredentialsHandler.List
  unfoldable pub list_credentials : Request → M Reply
  unfolding project_from_path credential_rows
  list_credentials r = do
    project ← project_from_path r
    found ← query (credentials_of project)
    rows ← or_refuse found (write_error 500 (codes "database error"))
    pure (write_json 200 (object (field (codes "credentials") (array (credential_rows rows)) end)))

  -- CredentialsHandler.Add. `nonce` is what Encrypt reads.
  unfoldable pub add_credential :
      ⦃crypto : CryptoLib⦄ → ⦃json : BodyJson⦄ → Bytes → Option Bytes → Request → M Reply
  unfolding project_from_path
  add_credential ⦃crypto⦄ ⦃json⦄ enc_key nonce r = do
    project ← project_from_path r
    (provider, key) ←
        or_refuse (json.credential r.body) (write_error 400 (codes "invalid request body"))
    refuse_if (is_empty key) (write_error 400 (codes "key is required"))
    refuse_if (not (is_provider provider))
        (write_error 400 (codes "provider must be openai, anthropic, or google"))
    sealed ←
        or_refuse (ok_or_none (encrypt nonce enc_key key))
          (write_error 500 (codes "could not encrypt credential"))
    stored ← execute (upsert_credential project provider sealed)
    (id, created) ← or_refuse stored (write_error 500 (codes "could not store credential"))
    pure (
        write_json 201 (
          object (
            field (codes "id") (text (lib.to_string id)) (
              field (codes "provider") (text provider)
                (field (codes "created_at") (instant_of created) end)))))

  -- CredentialsHandler.Revoke
  unfoldable pub revoke_credential : Request → M Reply
  unfolding project_from_path
  revoke_credential r = do
    project ← project_from_path r
    id ←
        or_refuse (lib.parse (r.path_value (codes "credId")))
          (write_error 400 (codes "invalid credential id"))
    hit ← execute (revoke_credentials id project)
    refuse_if (none_affected hit) (write_error 404 (codes "credential not found"))
    pure no_content
