-- ===== src/Api/Projects.antt =====
-- api/projects.go.
pub mod Keeps
pub mod Race
use airelay.Base.{
  ℕ, ◌≡◌, Bool, true, false, ◌&&◌, ◌||◌, not, Option, none, some, List, [], ◌∷◌, ◌++◌, Bytes, codes,
  bytes_eq, leb, ltb, ◌==◌, if◌then◌else◌, filter, any, find, count_where, update_where, sort_desc,
  map, take, drop, length,
}
use airelay.Time.{Time, instant}
use airelay.Uuid.{Uuid, UuidLib}
use airelay.Models.{Project, UserPlan}
use airelay.Api.Http.{
  Json, text, object, array, instant_of, Fields, field, end, Items, nil, cons, Reply, write_json,
  write_error, no_content, Claims, Request, BodyJson,
}
use airelay.Api.Db.{
  Db, Store, M, ◌>>=◌, ◌>>◌, pure, refuse, refuse_if, or_refuse, query, execute, prepare, commit,
  within_limit, is_none, Outcome, settle, Flow, next, stop,
}
use airelay.Api.Slug.{generate_slug}
use airelay.Api.Plans.{PlanLimits, limits}

abbrev pub is_empty : Bytes → Bool
is_empty [] = true
is_empty (_ ∷ _) = false

-- SELECT true FROM projects WHERE id=$1 AND user_id=$2 AND archived_at IS NULL
abbrev pub is_owned : Uuid → Uuid → Project → Bool
is_owned id user p = p.id == id && (p.user_id == user && is_none p.archived_at)

unfoldable pub owned : Uuid → Uuid → Db → Bool
owned id user db = any (is_owned id user) db.projects

-- The error of the SELECT is not read: `exists` stays false.
abbrev pub or_false : Option Bool → Bool
or_false none = false
or_false (some b) = b

abbrev pub not_authenticated : Reply
not_authenticated = write_error 401 (codes "not authenticated")

-- The rows of a user's projects, newest first.
abbrev pub projects_of : Uuid → Db → List Project
projects_of user db =
    sort_desc (λ p. instant p.created_at)
      (filter (λ p. p.user_id == user && is_none p.archived_at) db.projects)

-- INSERT INTO projects … RETURNING id, created_at, in its transaction. The ids and the slugs are
-- unique, and the user is one of the users.
unfoldable pub insert_project :
    Uuid → Bytes → Bytes → Uuid → Time → Db → Option ((Uuid × Time) × Db)
insert_project user name slug id now db =
    if any (λ p. p.id == id || bytes_eq p.slug slug) db.projects
      || not (any (λ u. u.id == user) db.users)
    then none
    else some (
      (id, now),
      record db {
        projects =
            db.projects
            ++ record {
              id = id;
              user_id = user;
              name = name;
              slug = slug;
              created_at = now;
              archived_at = none;
            }
              ∷ [];
      },
    )

-- SELECT COUNT(*) FROM projects WHERE user_id=$1 AND archived_at IS NULL
abbrev pub active_projects : Uuid → Db → ℕ
active_projects user db = count_where (λ p. p.user_id == user && is_none p.archived_at) db.projects

-- The dash of the message counts as one symbol here.
abbrev pub full_projects : Reply
full_projects =
    write_error 403 (codes "free plan limited to 1 project — upgrade to Pro for unlimited")

-- SELECT name, slug, created_at FROM projects WHERE id=$1
abbrev pub project_by_id : Uuid → Db → Option Project
project_by_id id db = find (λ p. p.id == id) db.projects

-- The scan of a row that is not there fails as the query does.
abbrev pub row_of {ℓ} : {A : Type ℓ} → Option (Option A) → Option A
row_of none = none
row_of (some row) = row

-- UPDATE projects SET archived_at=NOW() WHERE id=$1
abbrev pub archive : Uuid → Uuid → Time → Db → Option (Unit {0} × Db)
archive id _ now db = some (
  tt,
  record db {
    projects =
        update_where (λ p. p.id == id) (λ p. record p { archived_at = some now }) db.projects;
  },
)

module _ ⦃lib : UuidLib⦄ where
  -- projectFromPath(db, w, r), and the return of the handlers behind it.
  unfoldable pub project_from_path : Request → M Uuid
  project_from_path r = do
    claims ← or_refuse r.claims not_authenticated
    id ←
        or_refuse (lib.parse (r.path_value (codes "id")))
          (write_error 400 (codes "invalid project id"))
    found ← query (owned id claims.user_id)
    refuse_if (not (or_false found)) (write_error 404 (codes "project not found"))
    pure id

  project_fields : Uuid → Bytes → Bytes → Time → Json
  project_fields id name slug created = object (
      field (codes "id") (text (lib.to_string id)) (
        field (codes "name") (text name)
          (field (codes "slug") (text slug) (field (codes "created_at") (instant_of created) end))))

  project_rows : List Project → Items
  unfolding project_fields
  project_rows [] = nil
  project_rows (p ∷ ps) = cons (project_fields p.id p.name p.slug p.created_at) (project_rows ps)

  -- ProjectsHandler.List
  unfoldable pub list_projects : Request → M Reply
  unfolding project_rows
  list_projects r = do
    claims ← or_refuse r.claims not_authenticated
    found ← query (projects_of claims.user_id)
    rows ← or_refuse found (write_error 500 (codes "database error"))
    pure (write_json 200 (object (field (codes "projects") (array (project_rows rows)) end)))

  -- ProjectsHandler.Create. `suffix_id` is the random id of the slug.
  unfoldable pub create_project : ⦃json : BodyJson⦄ → Uuid → Request → M Reply
  unfolding insert_project project_fields
  create_project ⦃json⦄ suffix_id r = do
    claims ← or_refuse r.claims not_authenticated
    name ← or_refuse (json.name r.body) (write_error 400 (codes "invalid request body"))
    refuse_if (is_empty name) (write_error 400 (codes "name is required"))
    begun ← query (λ _. tt)
    or_refuse begun (write_error 500 (codes "could not start transaction"))
    alive ←
        within_limit (limits claims.plan).max_projects (active_projects claims.user_id)
          full_projects
    let slug = generate_slug suffix_id name
    made ← prepare alive (insert_project claims.user_id name slug)
    ((id, created), db) ← or_refuse made (write_error 500 (codes "could not create project"))
    done ← commit db
    or_refuse done (write_error 500 (codes "could not commit"))
    pure (write_json 201 (project_fields id name slug created))

  -- ProjectsHandler.Get
  unfoldable pub get_project : Request → M Reply
  unfolding project_from_path project_fields
  get_project r = do
    id ← project_from_path r
    found ← query (project_by_id id)
    p ← or_refuse (row_of found) (write_error 500 (codes "database error"))
    pure (write_json 200 (project_fields id p.name p.slug p.created_at))

  -- ProjectsHandler.Delete, which does not read the error of its statement.
  unfoldable pub delete_project : Request → M Reply
  unfolding project_from_path
  delete_project r = do id ← project_from_path r; done ← execute (archive id); pure no_content
