-- ===== src/Api/Projects/Keeps.antt =====
-- The rule for projectFromPath, about a predicate of the tables that a handler keeps.
use airelay.Base.{◌≡◌, inl, inr, refl, true, some, codes, Bool-cases, Option-cases}
use airelay.Uuid.{Uuid, UuidLib}
use airelay.Api.Http.{Reply, Claims, Request}
use airelay.Api.Db.{Db, Store, M, ◌>>=◌}
use airelay.Api.Projects.{owned, project_from_path}

module _ ⦃lib : UuidLib⦄ where
  -- A handler behind projectFromPath runs on a project of the user's.
  pub project_from_path-Keeps :
      (I : Db → Type 0) (r : Request) (c : Claims) (k : Uuid → M Reply) (s : Store)
      → I s.db
      → ((q : Uuid) (t : Store) → t.db ≡ s.db → owned q c.user_id s.db ≡ true → I (k q t).1.db)
      → I ((project_from_path (record r { claims = some c }) >>= k) s).1.db
  unfolding project_from_path
  project_from_path-Keeps I r c k s i keeps =
      elim (Option-cases (lib.parse (r.path_value (codes "id")))) [
        | inl e ↦ rw e i
        | inr (q, e) ↦ elim (Bool-cases (s.script 0).ok) [
          | inl f ↦ elim (Bool-cases (owned q c.user_id s.db)) [
            | inl o ↦ rw (e, f, o) (keeps q _ refl o)
            | inr o ↦ rw (e, f, o) i
          ]
          | inr f ↦ rw (e, f) i
        ]
      ]
