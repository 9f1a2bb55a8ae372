-- ===== src/Api/Lifecycle/Created.antt =====
-- A new key at the proxy.
use airelay.Base.{
  ℕ, zero, suc, ◌≡◌, ◌⊎◌, refl, sym, ◌∙◌, inl, inr, true, false, ◌||◌, none, some, List, [], ◌∷◌,
  ◌++◌, Bytes, codes, bytes_eq, bytes_eq_refl, ◌==◌, leb, any, find, arith,
}
use airelay.Time.{Time}
use airelay.Uuid.{Uuid, UuidLib}
use airelay.Models.{Project, ApiKey, ProviderCredential, AiProvider}
use airelay.Encrypt.{CryptoLib}
use airelay.Proxy.Auth.{generate_key}
use airelay.Api.Http.{Reply, Claims, Request, BodyJson}
use airelay.Api.Db.{Db, Store, next, within_limit}
use airelay.Api.Plans.{limits}
use airelay.Api.Projects.{owned, is_owned, project_from_path}
use airelay.Api.Credentials.{is_current}
use airelay.Api.Keys.{create_key, insert_key, name_or_none, active_keys}
use airelay.Api.Server.Writes.{Below}
use airelay.Api.Lifecycle.{row_for, is_live, credential_in, credential_query}

-- Of keys with other hashes, only the last one counts.
pub credential_in-last :
    (hash : Bytes) (provider : AiProvider) (id : Uuid) (creds : List ProviderCredential)
    (ks : List ApiKey) (k : ApiKey)
    → any (λ x. x.id == id || bytes_eq x.key_hash hash) ks ≡ false
    → credential_in hash provider creds (ks ++ k ∷ []) ≡ credential_in hash provider creds (k ∷ [])
unfolding credential_in
credential_in-last hash provider id creds [] k h = refl
credential_in-last hash provider id creds (x ∷ ks) k h =
    let absent : is_live hash x ≡ false = ground arith in
    let rest : any (λ x. x.id == id || bytes_eq x.key_hash hash) ks ≡ false = ground arith in
    rw absent (credential_in-last hash provider id creds ks k rest)

abbrev new_key : Uuid → Bytes → Bytes → Bytes → Uuid → Time → ApiKey
new_key project hash prefix name id now = record {
  id = id;
  project_id = project;
  key_hash = hash;
  key_prefix = prefix;
  name = name;
  last_used_at = none;
  revoked_at = none;
  created_at = now;
}

abbrev with_key : Db → ApiKey → Db
with_key db k = record db { api_keys = db.api_keys ++ k ∷ [] }

credential_query-with_key :
    (project : Uuid) (hash prefix name : Bytes) (id : Uuid) (now : Time) (db : Db)
    (provider : AiProvider)
    → any (λ x. x.id == id || bytes_eq x.key_hash hash) db.api_keys ≡ false
    → credential_query hash provider (with_key db (new_key project hash prefix name id now))
      ≡ row_for id project (find (is_current project provider) db.provider_credentials) none
unfolding credential_query credential_in
credential_query-with_key project hash prefix name id now db provider h =
    credential_in-last hash provider id db.provider_credentials db.api_keys
      (new_key project hash prefix name id now) h
    ∙ rw (bytes_eq_refl hash) refl

-- A project of the user's is there.
any_owned :
    (p user : Uuid) (ps : List Project)
    → any (is_owned p user) ps ≡ true
    → any (λ x. x.id == p) ps ≡ true
any_owned p user [] h = h
any_owned p user (x ∷ ps) h = ground (arith, any_owned p user ps)

pub owned-any :
    (p user : Uuid) (db : Db) → owned p user db ≡ true → any (λ x. x.id == p) db.projects ≡ true
unfolding owned
owned-any p user db h = any_owned p user db.projects h

fewer_lem : (m n : ℕ) → Below (suc m) n → leb (suc m) n ≡ false
fewer_lem m n b = ground arith

limit-cases : (n : ℕ) → (n ≡ 0) ⊎ ((m : ℕ) × (n ≡ suc m))
limit-cases zero = inl refl
limit-cases (suc m) = inr (m, refl)

module _ ⦃lib : UuidLib⦄ ⦃crypto : CryptoLib⦄ ⦃json : BodyJson⦄ where
  -- Where a user creates a key in a project of the user's with fewer active keys than the plan
  -- allows, all statements run, the name is not empty and no key has the new id or the new hash, the
  -- reply is 201, and the proxy resolves the new key, for each provider, to the project and to its
  -- current credential for the provider, if it has one.
  pub create_key-credential_query :
      (random : Bytes) (r : Request) (c : Claims) (s : Store) (project : Uuid) (name : Bytes)
      → lib.parse (r.path_value (codes "id")) ≡ some project
      → name_or_none (json.name r.body) ≡ some name
      → ((n : ℕ) → (s.script n).ok ≡ true)
      → owned project c.user_id s.db ≡ true
      → Below (limits c.plan).max_keys (active_keys project s.db)
      → let (full, prefix, hash) = generate_key random in
        ((n : ℕ)
          → any (λ k. k.id == (s.script n).id || bytes_eq k.key_hash hash) s.db.api_keys ≡ false)
        → let (flow, s') = create_key random (record r { claims = some c }) s in
          ((reply : Reply) × (flow ≡ next reply) × (reply.status ≡ 201))
          × ((id : Uuid) × ((provider : AiProvider)
                → credential_query hash provider s'.db
                  ≡ row_for id project
                      (find (is_current project provider) s.db.provider_credentials)
                      none))
  unfolding create_key project_from_path insert_key within_limit
  create_key-credential_query random r c s project name e n ok o below fresh =
      let (full, prefix, hash) = generate_key random in
      elim (limit-cases (limits c.plan).max_keys) [
        | inl z ↦
            rw (e, ok 0, o, n, ok 1, z, ok 2, fresh 2, owned-any project c.user_id s.db o, ok 3)
              (
                (_, refl, refl),
                (
                  (s.script 2).id,
                  λ provider.
                      credential_query-with_key project hash prefix name (s.script 2).id
                        (s.script 2).now s.db provider (fresh 2),
                ),
              )
        | inr (m, z) ↦
            let fewer : leb (suc m) (active_keys project s.db) ≡ false =
              fewer_lem m _ (rw (sym z) below) in
            rw
              (
                e,
                ok 0,
                o,
                n,
                ok 1,
                z,
                ok 2,
                ok 3,
                fewer,
                ok 4,
                fresh 4,
                owned-any project c.user_id s.db o,
                ok 5,
              )
              (
                (_, refl, refl),
                (
                  (s.script 4).id,
                  λ provider.
                      credential_query-with_key project hash prefix name (s.script 4).id
                        (s.script 4).now s.db provider (fresh 4),
                ),
              )
      ]
