-- ===== src/Cmd/Seed/Rows.antt =====
-- The user and the project of the seed.
use airelay.Base.{
  ◌≡◌, refl, ◌∙◌, inl, inr, Bool, true, false, ◌||◌, Option, none, some, List, [], ◌∷◌, ◌++◌, Bytes,
  codes, bytes_eq, ◌==◌, ==_refl, any, find, update_where, delete_where, Bool-cases, arith,
}
use mathlib.Core.Option.{some-injective}
use airelay.Time.{Time}
use airelay.Uuid.{Uuid}
use airelay.Models.{User, Project, plan_pro}
use airelay.Api.Db.{Db}
use airelay.Api.Projects.{insert_project}
use airelay.Cmd.Seed.{dev_email, dev_slug, user_over, project_over}

module _ {A : Type 0} where
  any-append_last : (q : A → Bool) (xs : List A) (x : A) → q x ≡ true → any q (xs ++ x ∷ []) ≡ true
  any-append_last q [] x h = rw h refl
  any-append_last q (y ∷ xs) x h = ground (arith, any-append_last q xs x h)

  any-update_where :
      (q p : A → Bool) (f : A → A) (xs : List A)
      → ((x : A) → q (f x) ≡ q x)
      → any q (update_where p f xs) ≡ any q xs
  any-update_where q p f [] h = refl
  any-update_where q p f (x ∷ xs) h = ground (arith, any-update_where q p f xs h, h x)

  pub any-delete_where :
      (q p : A → Bool) (xs : List A) → any q xs ≡ false → any q (delete_where p xs) ≡ false
  any-delete_where q p [] h = h
  any-delete_where q p (x ∷ xs) h = ground (arith, any-delete_where q p xs)

  any-or :
      (p q : A → Bool) (xs : List A)
      → any p xs ≡ false
      → find q xs ≡ none
      → any (λ x. p x || q x) xs ≡ false
  any-or p q [] h k = refl
  any-or p q (x ∷ xs) h k = ground (arith, any-or p q xs)

  any-found :
      (q p : A → Bool) (xs : List A) (x : A) → find p xs ≡ some x → q x ≡ true → any q xs ≡ true
  any-found q p [] x h k = cc
  any-found q p (y ∷ xs) x h k = elim (Bool-cases (p y)) [
    | inl e ↦ let same : y ≡ x = some-injective y x (rw e at h) in rw (same, k) refl
    | inr e ↦ let rest = any-found q p xs x (rw e at h) k in ground arith
  ]

-- A user's row is there, and the other tables are as they were.
pub record HasUser (user : Uuid) (db db' : Db) : Type 0 where
  pub there : any (λ u. u.id == user) db'.users ≡ true
  pub projects : db'.projects ≡ db.projects
  pub api_keys : db'.api_keys ≡ db.api_keys
  pub provider_credentials : db'.provider_credentials ≡ db.provider_credentials

pub user_over-HasUser :
    (hash : Bytes) (id : Uuid) (now : Time) (db : Db) (found : Option User)
    → find (λ u. bytes_eq u.email dev_email) db.users ≡ found
    → any (λ u. u.id == id) db.users ≡ false
    → (user : Uuid) × (db' : Db) × (user_over hash id now found db ≡ some (user, db'))
      × HasUser user db db'
unfolding user_over
user_over-HasUser hash id now db none e new =
    let row : User = record {
      id = id;
      email = dev_email;
      password_hash = hash;
      plan = plan_pro;
      stripe_customer_id = none;
      created_at = now;
    } in
    (
      id,
      record db { users = db.users ++ row ∷ [] },
      rw new refl,
      record {
        there = any-append_last (λ u. u.id == id) db.users row (==_refl id);
        projects = refl;
        api_keys = refl;
        provider_credentials = refl;
      },
    )
user_over-HasUser hash id now db (some u) e new =
    let is_dev : User → Bool = λ x. bytes_eq x.email dev_email in
    let change : User → User = λ x. record x { plan = plan_pro } in
    (
      u.id,
      record db { users = update_where is_dev change db.users },
      refl,
      record {
        there =
            any-update_where (λ x. x.id == u.id) is_dev change db.users (λ x. refl)
            ∙ any-found (λ x. x.id == u.id) is_dev db.users u e (==_refl u.id);
        projects = refl;
        api_keys = refl;
        provider_credentials = refl;
      },
    )

-- A project's row is there, and the tables of keys and credentials are as they were.
pub record HasProject (project : Uuid) (db db' : Db) : Type 0 where
  pub there : any (λ p. p.id == project) db'.projects ≡ true
  pub api_keys : db'.api_keys ≡ db.api_keys
  pub provider_credentials : db'.provider_credentials ≡ db.provider_credentials

pub project_over-HasProject :
    (user id : Uuid) (now : Time) (db : Db) (found : Option Project)
    → find (λ p. bytes_eq p.slug dev_slug) db.projects ≡ found
    → any (λ u. u.id == user) db.users ≡ true
    → any (λ p. p.id == id) db.projects ≡ false
    → (project : Uuid) × (db' : Db) × (project_over user id now found db ≡ some (project, db'))
      × HasProject project db db'
unfolding project_over insert_project
project_over-HasProject user id now db none e is_user new =
    let row : Project = record {
      id = id;
      user_id = user;
      name = codes "Dev Project";
      slug = dev_slug;
      created_at = now;
      archived_at = none;
    } in
    let free = any-or (λ p. p.id == id) (λ p. bytes_eq p.slug dev_slug) db.projects new e in
    (
      id,
      record db { projects = db.projects ++ row ∷ [] },
      rw (free, is_user) refl,
      record {
        there = any-append_last (λ p. p.id == id) db.projects row (==_refl id);
        api_keys = refl;
        provider_credentials = refl;
      },
    )
project_over-HasProject user id now db (some p) e is_user new =
    let is_dev : Project → Bool = λ x. bytes_eq x.slug dev_slug in
    let change : Project → Project = λ x. record x { name = codes "Dev Project" } in
    (
      p.id,
      record db { projects = update_where is_dev change db.projects },
      refl,
      record {
        there =
            any-update_where (λ x. x.id == p.id) is_dev change db.projects (λ x. refl)
            ∙ any-found (λ x. x.id == p.id) is_dev db.projects p e (==_refl p.id);
        api_keys = refl;
        provider_credentials = refl;
      },
    )
