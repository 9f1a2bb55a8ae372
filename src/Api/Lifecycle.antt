-- ===== src/Api/Lifecycle.antt =====
-- What the keys and the credentials of the management API mean to the proxy: the query of
-- resolveFromDB (proxy/auth.go) over the tables that the API writes.
pub mod Created
pub mod Stored
pub mod Resolved
pub mod Limited
pub mod Lifted
use airelay.Base.{
  ◌≡◌, refl, ap, inl, inr, Bool, true, false, ◌&&◌, Option, none, some, List, [], ◌∷◌, Bytes, codes,
  bytes_eq, ◌==◌, any, find, update_where, All, if◌then◌else◌, arith, Bool-cases,
}
use airelay.Time.{Time}
use airelay.Uuid.{Uuid, UuidLib}
use airelay.Models.{ApiKey, ProviderCredential, AiProvider}
use airelay.Proxy.Backend.{CredentialRow}
use airelay.Api.Http.{no_content, write_error, Claims, Request}
use airelay.Api.Db.{Db, Store, stop, next, execute, pure, is_none, ◌>>=◌}
use airelay.Api.Db.Keeps.{execute-Keeps}
use airelay.Api.Projects.{owned, delete_project, project_from_path, archive}
use airelay.Api.Projects.Keeps.{project_from_path-Keeps}
use airelay.Api.Credentials.{is_current}
use airelay.Api.Keys.{revoke_key, is_active_key}

-- What the join gives for a key of a project, before the rows of other keys.
abbrev pub row_for :
    Uuid → Uuid → Option ProviderCredential → Option CredentialRow → Option CredentialRow
row_for id project none rest = rest
row_for id project (some c) rest = some (record {
  api_key_id = id;
  project_id = project;
  provider = c.provider;
  encrypted_key = c.encrypted_key;
})

abbrev pub is_live : Bytes → ApiKey → Bool
is_live hash k = bytes_eq k.key_hash hash && is_none k.revoked_at

-- SELECT … FROM api_keys ak JOIN provider_credentials pc ON pc.project_id = ak.project_id AND
-- pc.provider = $2 AND pc.revoked_at IS NULL WHERE ak.key_hash = $1 AND ak.revoked_at IS NULL, and the
-- first of its rows.
unfoldable pub credential_in :
    Bytes → AiProvider → List ProviderCredential → List ApiKey → Option CredentialRow
credential_in hash provider creds [] = none
credential_in hash provider creds (k ∷ ks) =
    let rest = credential_in hash provider creds ks in
    if is_live hash k
    then row_for k.id k.project_id (find (is_current k.project_id provider) creds) rest
    else rest

unfoldable pub credential_query : Bytes → AiProvider → Db → Option CredentialRow
unfolding credential_in
credential_query hash provider db = credential_in hash provider db.provider_credentials db.api_keys

-- The hash is that of this key alone.
abbrev pub IsHashOf : Bytes → Uuid → Uuid → Db → Type 0
IsHashOf hash id project db =
    All (λ k. bytes_eq k.key_hash hash ≡ true → ((k.id == id) && (k.project_id == project)) ≡ true)
      db.api_keys

dead :
    (hash : Bytes) (id project : Uuid) (now : Time) (k : ApiKey)
    → (bytes_eq k.key_hash hash ≡ true → ((k.id == id) && (k.project_id == project)) ≡ true)
    → is_live hash (if is_active_key id project k then record k { revoked_at = some now } else k)
      ≡ false
dead hash id project now k h = ground (arith, h)

revoked-credential_in :
    (hash : Bytes) (provider : AiProvider) (id project : Uuid) (now : Time)
    (creds : List ProviderCredential) (ks : List ApiKey)
    → All
        (λ k. bytes_eq k.key_hash hash ≡ true → ((k.id == id) && (k.project_id == project)) ≡ true)
        ks
    → credential_in hash provider creds
        (update_where (is_active_key id project) (λ k. record k { revoked_at = some now }) ks)
      ≡ none
unfolding credential_in
revoked-credential_in hash provider id project now creds [] h = refl
revoked-credential_in hash provider id project now creds (k ∷ ks) (h, hs) =
    rw (dead hash id project now k h)
      (revoked-credential_in hash provider id project now creds ks hs)

module _ ⦃lib : UuidLib⦄ where
  -- On a project of the user's, and where its two statements run, a revocation leaves no row that
  -- the proxy could resolve the key by, for any provider. The reply says whether the key was active:
  -- 204, or 404.
  pub revoke_key-credential_query :
      (r : Request) (c : Claims) (s : Store) (project id : Uuid) (hash : Bytes)
      (provider : AiProvider)
      → lib.parse (r.path_value (codes "id")) ≡ some project
      → lib.parse (r.path_value (codes "keyId")) ≡ some id
      → (s.script 0).ok ≡ true
      → (s.script 1).ok ≡ true
      → owned project c.user_id s.db ≡ true
      → IsHashOf hash id project s.db
      → let (flow, s') = revoke_key (record r { claims = some c }) s in
        (credential_query hash provider s'.db ≡ none)
        × (flow ≡ (
            if any (is_active_key id project) s.db.api_keys
            then next no_content
            else stop (write_error 404 (codes "key not found"))))
  unfolding revoke_key project_from_path credential_query
  revoke_key-credential_query r c s project id hash provider e k f g o h =
      let revoked =
        revoked-credential_in hash provider id project (s.script 1).now s.db.provider_credentials
          s.db.api_keys h in
      elim (Bool-cases (any (is_active_key id project) s.db.api_keys)) [
        | inl b ↦ rw (e, f, o, k, g, b) (revoked, refl)
        | inr b ↦ rw (e, f, o, k, g, b) (revoked, refl)
      ]

  -- Archiving a project leaves its keys alive: what the proxy resolves a key to is the same after
  -- any request to delete a project.
  pub delete_project-credential_query :
      (r : Request) (c : Claims) (s : Store) (hash : Bytes) (provider : AiProvider)
      → credential_query hash provider (delete_project (record r { claims = some c }) s).1.db
        ≡ credential_query hash provider s.db
  unfolding delete_project credential_query
  delete_project-credential_query r c s hash provider =
      let I : Db → Type 0 =
        λ db. credential_query hash provider db ≡ credential_query hash provider s.db in
      project_from_path-Keeps I r c (λ q. execute (archive q) >>= λ _. pure no_content) s refl
        (λ q t e o.
          execute-Keeps I (archive q) (λ _. pure no_content) t
            (ap (credential_query hash provider) e)
            (λ id now. ap (credential_query hash provider) e) (λ a t' i. i))
