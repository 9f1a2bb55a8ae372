-- ===== src/Api/Server/Private.antt =====
-- The routes of api/server.go that read, in two states of the tables.
use airelay.Base.{
  ℕ, ◌≡◌, refl, sym, ap, ◌∙◌, inl, inr, Bool, true, false, ◌&&◌, Option, none, some, List, [], ◌∷◌,
  Bytes, codes, ◌==◌, leb, filter, find, sort_desc, arith, Bool-cases, Option-cases,
}
use airelay.Float.{FloatOps, Float64}
use airelay.Time.{Time, instant}
use airelay.Uuid.{Uuid, UuidLib}
use airelay.Models.{Project, ApiKey, ProviderCredential, Budget, UsageEvent}
use airelay.Encrypt.{CryptoLib}
use airelay.Api.Http.{Reply, Claims, Request, BodyJson}
use airelay.Api.Db.{Db, Outcome, Store, M, ◌>>=◌}
use airelay.Api.Projects.{
  owned, project_from_path, project_by_id, projects_of, get_project, list_projects,
}
use airelay.Api.Keys.{list_keys, keys_of}
use airelay.Api.Credentials.{list_credentials, credentials_of}
use airelay.Api.Budgets.{get_budgets}
use airelay.Api.Auth.{Bcrypt, Jwt, me}
use airelay.Api.Plans.{history_start}
use airelay.Api.Usage.{
  Grouping, list_usage, summarise_usage, events_since, event_page, page_of, limit_of, offset_of,
  int_half,
}
use airelay.Api.Server.{Route, Inputs, handler_of}

-- The rows that belong to a project.
abbrev pub owned_rows :
    Uuid → Db → List Project × List ApiKey × List ProviderCredential × List Budget × List UsageEvent
owned_rows q db = (
  filter (λ p. p.id == q) db.projects,
  filter (λ k. k.project_id == q) db.api_keys,
  filter (λ c. c.project_id == q) db.provider_credentials,
  filter (λ b. b.project_id == q) db.budgets,
  filter (λ e. e.project_id == q) db.usage_events,
)

-- Two states of the tables in which a user has the same.
pub record IsSameFor (user : Uuid) (db db' : Db) : Type 0 where
  pub same_projects : projects_of user db ≡ projects_of user db'
  pub same_owned : (q : Uuid) → owned q user db ≡ owned q user db'
  pub same_rows : (q : Uuid) → owned q user db ≡ true → owned_rows q db ≡ owned_rows q db'

first {ℓ} : {A : Type ℓ} → List A → Option A
first [] = none
first (x ∷ _) = some x

find-filter : {A : Type 0} (p : A → Bool) (xs : List A) → find p xs ≡ first (filter p xs)
unfolding first
find-filter p [] = refl
find-filter p (x ∷ xs) = elim (Bool-cases (p x)) [
  | inl e ↦ rw e refl
  | inr e ↦ rw e (find-filter p xs)
]

filter-and :
    {A : Type 0} (p q : A → Bool) (xs : List A)
    → filter (λ x. p x && q x) xs ≡ filter q (filter p xs)
filter-and p q [] = refl
filter-and p q (x ∷ xs) = ground (arith, filter-and p q xs)

events_since-cong :
    (q : Uuid) (start : ℕ) (db db' : Db)
    → filter (λ e. e.project_id == q) db.usage_events
      ≡ filter (λ e. e.project_id == q) db'.usage_events
    → events_since q start db ≡ events_since q start db'
events_since-cong q start db db' h =
    let late : UsageEvent → Bool = λ e. leb start (instant e.created_at) in
    ap (sort_desc (λ e. instant e.created_at)) (
      filter-and (λ e. e.project_id == q) late db.usage_events
      ∙ ap (filter late) h
      ∙ sym (filter-and (λ e. e.project_id == q) late db'.usage_events))

module _ ⦃lib : UuidLib⦄ (r : Request) (c : Claims) (s : Store) (db' : Db)
    (same : IsSameFor c.user_id s.db db') where
  abbrev asked : Request
  asked = record r { claims = some c }

  behind :
      (k : Uuid → M Reply)
      → ((q : Uuid) (t : ℕ → Outcome)
          → owned q c.user_id s.db ≡ true
          → (k q (record { db = s.db; script = t })).0 ≡ (k q (record { db = db'; script = t })).0)
      → ((project_from_path asked >>= k) s).0
        ≡ ((project_from_path asked >>= k) (record s { db = db' })).0
  unfolding project_from_path
  behind k h = elim (Option-cases (lib.parse (r.path_value (codes "id")))) [
    | inl e ↦ rw e refl
    | inr (q, e) ↦ elim (Bool-cases (s.script 0).ok) [
      | inr f ↦ rw (e, f) refl
      | inl f ↦ elim (Bool-cases (owned q c.user_id s.db)) [
        | inl o ↦
            let o' : owned q c.user_id db' ≡ true = sym (same.same_owned q) ∙ o in
            rw (e, f, o, o') (h q _ o)
        | inr o ↦
            let o' : owned q c.user_id db' ≡ false = sym (same.same_owned q) ∙ o in
            rw (e, f, o, o') refl
      ]
    ]
  ]

  list_projects-same : (list_projects asked s).0 ≡ (list_projects asked (record s { db = db' })).0
  unfolding list_projects
  list_projects-same = rw same.same_projects (ground arith)

  get_project-same : (get_project asked s).0 ≡ (get_project asked (record s { db = db' })).0
  unfolding get_project
  get_project-same = behind _ (λ q t o.
      let e : project_by_id q s.db ≡ project_by_id q db' =
        find-filter (λ p. p.id == q) s.db.projects
        ∙ ap (λ rows. first rows.0) (same.same_rows q o)
        ∙ sym (find-filter (λ p. p.id == q) db'.projects) in
      rw e (ground arith))

  list_keys-same : (list_keys asked s).0 ≡ (list_keys asked (record s { db = db' })).0
  unfolding list_keys
  list_keys-same = behind _ (λ q t o.
      let e : keys_of q s.db ≡ keys_of q db' =
        ap (λ rows. sort_desc (λ k. instant k.created_at) rows.1) (same.same_rows q o) in
      rw e (ground arith))

  list_credentials-same :
      (list_credentials asked s).0 ≡ (list_credentials asked (record s { db = db' })).0
  unfolding list_credentials
  list_credentials-same = behind _ (λ q t o.
      let e : credentials_of q s.db ≡ credentials_of q db' =
        ap (λ rows. sort_desc (λ k. instant k.created_at) rows.2) (same.same_rows q o) in
      rw e (ground arith))

  get_budgets-same :
      ⦃fl : FloatOps⦄ (spend : Bytes → Float64) (now : Time)
      → (get_budgets spend now asked s).0 ≡ (get_budgets spend now asked (record s { db = db' })).0
  unfolding get_budgets
  get_budgets-same spend now =
      behind _ (λ q t o. rw (ap (λ rows. rows.3) (same.same_rows q o)) (ground arith))

  events_same :
      (q : Uuid) (start : ℕ)
      → owned q c.user_id s.db ≡ true
      → events_since q start s.db ≡ events_since q start db'
  events_same q start o =
      events_since-cong q start s.db db' (ap (λ rows. rows.4) (same.same_rows q o))

  list_usage-same :
      (atoi : Bytes → ℕ) (now : Time)
      → (list_usage atoi now asked s).0 ≡ (list_usage atoi now asked (record s { db = db' })).0
  unfolding list_usage event_page
  list_usage-same atoi now = behind _ (λ q t o.
      let start = history_start c.plan now in
      let e : events_since q start s.db ≡ events_since q start db' = events_same q start o in
      let offset =
        offset_of (page_of (atoi (r.query (codes "page"))))
          (limit_of (atoi (r.query (codes "limit")))) in
      elim (Bool-cases (t 0).ok) [
        | inr f ↦ rw f refl
        | inl f ↦ elim (Bool-cases (leb int_half offset)) [
          | inl g ↦ rw (f, g) refl
          | inr g ↦ elim (Bool-cases (t 1).ok) [
            | inl h ↦ rw (f, g, h, e) refl
            | inr h ↦ rw (f, g, h, e) refl
          ]
        ]
      ])

  summarise_usage-same :
      ⦃group : Grouping⦄ (now : Time)
      → (summarise_usage now asked s).0 ≡ (summarise_usage now asked (record s { db = db' })).0
  unfolding summarise_usage
  summarise_usage-same now = behind _ (λ q t o.
      let start = history_start c.plan now in
      let e : events_since q start s.db ≡ events_since q start db' = events_same q start o in
      elim (Bool-cases (t 0).ok) [
        | inr f ↦ rw f refl
        | inl f ↦ elim (Bool-cases (t 1).ok) [
          | inl h ↦ rw (f, h, e) refl
          | inr h ↦ rw (f, h, e) refl
        ]
      ])

-- The routes that read.
unfoldable pub reads : Route → Bool
reads Route.auth_me = true
reads Route.projects_list = true
reads Route.projects_get = true
reads Route.keys_list = true
reads Route.creds_list = true
reads Route.budgets_get = true
reads Route.usage_summary = true
reads Route.usage_list = true
reads Route.projects_create = false
reads Route.projects_delete = false
reads Route.keys_create = false
reads Route.keys_revoke = false
reads Route.creds_add = false
reads Route.creds_revoke = false
reads Route.budgets_upsert = false
reads Route.budgets_delete = false

-- Of the tables, a reading route shows a user's own rows alone: in two states of the tables that list the
-- same projects for the user, that agree on which projects the user owns, and that hold the same
-- rows of each of those, a handler that reads, with the user's claims, ends with the same reply,
-- however its statements end.
pub handler_of-private :
    ⦃fl : FloatOps⦄ ⦃lib : UuidLib⦄ ⦃crypto : CryptoLib⦄ ⦃bcrypt : Bcrypt⦄ ⦃jwt : Jwt⦄
    ⦃json : BodyJson⦄ ⦃group : Grouping⦄ (route : Route) (x : Inputs) (r : Request) (c : Claims)
    (s : Store) (db' : Db)
    → reads route ≡ true
    → IsSameFor c.user_id s.db db'
    → (handler_of route x (record r { claims = some c }) s).0
      ≡ (handler_of route x (record r { claims = some c }) (record s { db = db' })).0
unfolding reads handler_of me
handler_of-private Route.auth_me x r c s db' h same = refl
handler_of-private Route.projects_list x r c s db' h same = list_projects-same r c s db' same
handler_of-private Route.projects_get x r c s db' h same = get_project-same r c s db' same
handler_of-private Route.keys_list x r c s db' h same = list_keys-same r c s db' same
handler_of-private Route.creds_list x r c s db' h same = list_credentials-same r c s db' same
handler_of-private Route.budgets_get x r c s db' h same =
    get_budgets-same r c s db' same x.spend x.now
handler_of-private Route.usage_summary x r c s db' h same =
    summarise_usage-same r c s db' same x.now
handler_of-private Route.usage_list x r c s db' h same = list_usage-same r c s db' same x.atoi x.now
handler_of-private Route.projects_create x r c s db' h same = ground arith
handler_of-private Route.projects_delete x r c s db' h same = ground arith
handler_of-private Route.keys_create x r c s db' h same = ground arith
handler_of-private Route.keys_revoke x r c s db' h same = ground arith
handler_of-private Route.creds_add x r c s db' h same = ground arith
handler_of-private Route.creds_revoke x r c s db' h same = ground arith
handler_of-private Route.budgets_upsert x r c s db' h same = ground arith
handler_of-private Route.budgets_delete x r c s db' h same = ground arith
