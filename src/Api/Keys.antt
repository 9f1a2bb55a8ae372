-- ===== src/Api/Keys.antt =====
-- api/keys.go.
use airelay.Base.{
  ℕ, Bool, true, ◌&&◌, ◌||◌, not, Option, none, some, List, [], ◌∷◌, ◌++◌, Bytes, codes, bytes_eq,
  ◌==◌, if◌then◌else◌, filter, any, count_where, update_where, sort_desc,
}
use airelay.Time.{Time, instant}
use airelay.Uuid.{Uuid, UuidLib}
use airelay.Models.{ApiKey}
use airelay.Encrypt.{CryptoLib}
use airelay.Proxy.Auth.{generate_key}
use airelay.Api.Http.{
  Json, null, text, object, array, instant_of, field, end, Items, nil, cons, Reply, write_json,
  write_error, no_content, Request, BodyJson,
}
use airelay.Api.Db.{
  Db, M, ◌>>=◌, ◌>>◌, pure, refuse_if, or_refuse, query, execute, prepare, commit, within_limit,
  is_none,
}
use airelay.Api.Plans.{limits}
use airelay.Api.Projects.{not_authenticated, project_from_path}

abbrev pub time_or_null : Option Time → Json
time_or_null none = null
time_or_null (some t) = instant_of t

-- SELECT … FROM api_keys WHERE project_id=$1 ORDER BY created_at DESC
abbrev pub keys_of : Uuid → Db → List ApiKey
keys_of project db =
    sort_desc (λ k. instant k.created_at) (filter (λ k. k.project_id == project) db.api_keys)

-- SELECT COUNT(*) FROM api_keys WHERE project_id=$1 AND revoked_at IS NULL
abbrev pub active_keys : Uuid → Db → ℕ
active_keys project db =
    count_where (λ k. k.project_id == project && is_none k.revoked_at) db.api_keys

-- INSERT INTO api_keys … RETURNING id, created_at. The ids and the hashes are unique, and the
-- project is one of the projects.
unfoldable pub insert_key :
    Uuid → Bytes → Bytes → Bytes → Uuid → Time → Db → Option ((Uuid × Time) × Db)
insert_key project hash prefix name id now db =
    if any (λ k. k.id == id || bytes_eq k.key_hash hash) db.api_keys
      || not (any (λ p. p.id == project) db.projects)
    then none
    else some (
      (id, now),
      record db {
        api_keys =
            db.api_keys
            ++ record {
              id = id;
              project_id = project;
              key_hash = hash;
              key_prefix = prefix;
              name = name;
              last_used_at = none;
              revoked_at = none;
              created_at = now;
            }
              ∷ [];
      },
    )

abbrev pub is_active_key : Uuid → Uuid → ApiKey → Bool
is_active_key id project k = k.id == id && (k.project_id == project && is_none k.revoked_at)

-- UPDATE api_keys SET revoked_at=NOW() WHERE id=$1 AND project_id=$2 AND revoked_at IS NULL, with
-- whether a row was affected.
abbrev pub revoke_keys : Uuid → Uuid → Uuid → Time → Db → Option (Bool × Db)
revoke_keys id project _ now db = some (
  any (is_active_key id project) db.api_keys,
  record db {
    api_keys =
        update_where (is_active_key id project) (λ k. record k { revoked_at = some now })
          db.api_keys;
  },
)

-- `err != nil || tag.RowsAffected() == 0`
abbrev pub none_affected : Option Bool → Bool
none_affected none = true
none_affected (some hit) = not hit

-- `Decode(…) != nil || req.Name == ""`
abbrev pub name_or_none : Option Bytes → Option Bytes
name_or_none none = none
name_or_none (some []) = none
name_or_none (some (c ∷ s)) = some (c ∷ s)

abbrev pub full_keys : Reply
full_keys =
    write_error 403 (codes "free plan limited to 1 key per project — upgrade to Pro for unlimited")

module _ ⦃lib : UuidLib⦄ where
  key_rows : List ApiKey → Items
  key_rows [] = nil
  key_rows (k ∷ ks) =
      cons
        (object (
          field (codes "id") (text (lib.to_string k.id)) (
            field (codes "key_prefix") (text k.key_prefix) (
              field (codes "name") (text k.name) (
                field (codes "last_used_at") (time_or_null k.last_used_at) (
                  field (codes "revoked_at") (time_or_null k.revoked_at)
                    (field (codes "created_at") (instant_of k.created_at) end)))))))
        (key_rows ks)

  -- KeysHandler.List
  unfoldable pub list_keys : Request → M Reply
  unfolding project_from_path key_rows
  list_keys r = do
    project ← project_from_path r
    found ← query (keys_of project)
    rows ← or_refuse found (write_error 500 (codes "database error"))
    pure (write_json 200 (object (field (codes "keys") (array (key_rows rows)) end)))

  -- KeysHandler.Create. `random` is what GenerateKey reads; the claims are there, since
  -- projectFromPath has checked them.
  unfoldable pub create_key : ⦃crypto : CryptoLib⦄ → ⦃json : BodyJson⦄ → Bytes → Request → M Reply
  unfolding project_from_path insert_key
  create_key ⦃crypto⦄ ⦃json⦄ random r = do
    project ← project_from_path r
    name ← or_refuse (name_or_none (json.name r.body)) (write_error 400 (codes "name is required"))
    claims ← or_refuse r.claims not_authenticated
    begun ← query (λ _. tt)
    or_refuse begun (write_error 500 (codes "could not start transaction"))
    alive ← within_limit (limits claims.plan).max_keys (active_keys project) full_keys
    let (full, prefix, hash) = generate_key random
    made ← prepare alive (insert_key project hash prefix name)
    ((id, created), db) ← or_refuse made (write_error 500 (codes "could not create key"))
    done ← commit db
    or_refuse done (write_error 500 (codes "could not commit"))
    pure (
        write_json 201 (
          object (
            field (codes "id") (text (lib.to_string id)) (
              field (codes "key") (text full) (
                field (codes "key_prefix") (text prefix) (
                  field (codes "name") (text name)
                    (field (codes "created_at") (instant_of created) end)))))))

  -- KeysHandler.Revoke
  unfoldable pub revoke_key : Request → M Reply
  unfolding project_from_path
  revoke_key r = do
    project ← project_from_path r
    id ←
        or_refuse (lib.parse (r.path_value (codes "keyId")))
          (write_error 400 (codes "invalid key id"))
    hit ← execute (revoke_keys id project)
    refuse_if (none_affected hit) (write_error 404 (codes "key not found"))
    pure no_content
