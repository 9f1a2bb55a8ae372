-- ===== src/Api/Server/Run/Foreign.antt =====
-- What the requests of others do to a project.
use airelay.Base.{
  ◌≡◌, refl, sym, ap, ◌∙◌, inl, inr, Bool, true, false, ◌&&◌, Option, some, List, [], ◌∷◌, Bytes,
  codes, has_prefix, ◌==◌, any, bytes_eq, filter, All, arith, Bool-cases, Option-cases,
}
use airelay.Float.{FloatOps}
use airelay.Time.{Time, instant}
use airelay.Uuid.{Uuid, UuidLib}
use airelay.Models.{Project, ApiKey, ProviderCredential, Budget}
use airelay.Encrypt.{CryptoLib}
use airelay.Api.Http.{Claims, Request, BodyJson}
use airelay.Api.Db.{Db, Store, is_none}
use airelay.Api.Db.Keeps.{Result, execute-Keeps}
use airelay.Api.Projects.{owned, is_empty}
use airelay.Api.Auth.{Bcrypt, Jwt, bearer, require_auth, signup, login, insert_user}
use airelay.Api.Usage.{Grouping, list_models}
use airelay.Api.RateLimit.{Limiting, address, visit}
use airelay.Api.Server.{
  Route, auth_signup, auth_login, models_list, Inputs, handle, handle_open, rate_limited,
}
use airelay.Api.Server.Rows.{rows_of}
use airelay.Api.Server.Isolation.{handler_of-isolates}
use airelay.Api.Server.Run.{Server, Event, asks, asks_open, ticks, step, run}

-- The project's rows say who owns it.
any-filter :
    {A : Type 0} (p q : A → Bool) (xs : List A) → any (λ x. p x && q x) xs ≡ any q (filter p xs)
any-filter p q [] = refl
any-filter p q (x ∷ xs) = ground (arith, any-filter p q xs)

any-filter_self :
    {A : Type 0} (p : A → Bool) (xs : List A) → any p xs ≡ any (λ x. true) (filter p xs)
any-filter_self p [] = refl
any-filter_self p (x ∷ xs) = ground (arith, any-filter_self p xs)

owned-rows :
    (p user : Uuid) (db : Db)
    → owned p user db ≡ any (λ x. x.user_id == user && is_none x.archived_at) (rows_of p db).0
unfolding owned
owned-rows p user db =
    any-filter (λ x. x.id == p) (λ x. x.user_id == user && is_none x.archived_at) db.projects

-- A project of someone else's alone.
abbrev pub IsOf : Uuid → Uuid → Db → Type 0
IsOf p owner db =
    (any (λ x. x.id == p) db.projects ≡ true) × All (λ x. x.user_id ≡ owner) (rows_of p db).0

IsOf-same :
    (p owner : Uuid) (db db' : Db)
    → rows_of p db' ≡ rows_of p db
    → IsOf p owner db
    → IsOf p owner db'
IsOf-same p owner db db' e (there, rows) =
    let kept : (rows_of p db').0 ≡ (rows_of p db).0 =
      ap (λ (r : List Project × List ApiKey × List ProviderCredential × List Budget). r.0) e in
    (
      any-filter_self (λ x. x.id == p) db'.projects
          ∙ ap (any (λ x. true)) kept
          ∙ sym (any-filter_self (λ x. x.id == p) db.projects)
          ∙ there,
      rw kept rows,
    )

not_mine :
    (user owner : Uuid) (rows : List Project)
    → (user == owner) ≡ false
    → All (λ x. x.user_id ≡ owner) rows
    → any (λ x. x.user_id == user && is_none x.archived_at) rows ≡ false
not_mine user owner [] ne h = refl
not_mine user owner (x ∷ rows) ne (h, hs) =
    let other : (x.user_id == user) ≡ false = ground arith in
    rw other (not_mine user owner rows ne hs)

-- No token of the request names the owner.
abbrev pub IsForeign : ⦃jwt : Jwt⦄ → Uuid → Event → Type 0
IsForeign owner (asks route x r script) =
    (c : Claims) → bearer x.jwt_secret r.authorization x.now ≡ some c → (c.user_id == owner) ≡ false
IsForeign owner (asks_open route x r script) = Unit {0}
IsForeign owner (ticks now) = Unit {0}

insert_user-rows :
    (p : Uuid) (email hash : Bytes) (id : Uuid) (now : Time) (db : Db)
    → Result (λ db'. rows_of p db' ≡ rows_of p db) (insert_user email hash id now db)
unfolding insert_user
insert_user-rows p email hash id now db =
    elim (Bool-cases (any (λ u. bytes_eq u.email email) db.users)) [
      | inl e ↦ rw e refl
      | inr e ↦ elim (Bool-cases (any (λ u. u.id == id) db.users)) [
        | inl f ↦ rw (e, f) tt
        | inr f ↦ rw (e, f) refl
      ]
    ]

module _ ⦃fl : FloatOps⦄ ⦃lib : UuidLib⦄ ⦃crypto : CryptoLib⦄ ⦃bcrypt : Bcrypt⦄ ⦃jwt : Jwt⦄
    ⦃json : BodyJson⦄ ⦃group : Grouping⦄ (p : Uuid) where
  handle-rows :
      (owner : Uuid) (route : Route) (x : Inputs) (r : Request) (s : Store)
      → IsOf p owner s.db
      → ((c : Claims)
          → bearer x.jwt_secret r.authorization x.now ≡ some c
          → (c.user_id == owner) ≡ false)
      → rows_of p (handle route x r s).1.db ≡ rows_of p s.db
  unfolding handle require_auth
  handle-rows owner route x r s (there, rows) foreign =
      elim (Bool-cases (has_prefix r.authorization (codes "Bearer "))) [
        | inr e ↦ rw e refl
        | inl e ↦ elim (Option-cases (bearer x.jwt_secret r.authorization x.now)) [
          | inl f ↦ rw (e, f) refl
          | inr (c, f) ↦
              let no : owned p c.user_id s.db ≡ false =
                owned-rows p c.user_id s.db
                ∙ not_mine c.user_id owner (rows_of p s.db).0 (foreign c f) rows in
              rw (e, f) (handler_of-isolates route x r c s p there no)
        ]
      ]

  signup-rows :
      (salt : Bytes) (r : Request) (s : Store) → rows_of p (signup salt r s).1.db ≡ rows_of p s.db
  unfolding signup
  signup-rows salt r s = elim (Option-cases (json.login r.body)) [
    | inl e ↦ rw e refl
    | inr ((email, password), e) ↦ elim (Bool-cases (is_empty email)) [
      | inl a ↦ rw (e, a) refl
      | inr a ↦ elim (Bool-cases (is_empty password)) [
        | inl b ↦ rw (e, a, b) refl
        | inr b ↦ elim (Option-cases (bcrypt.hash_password salt password)) [
          | inl h ↦ rw (e, a, b, h) refl
          | inr (hash, h) ↦
              rw (e, a, b, h)
                (execute-Keeps (λ db. rows_of p db ≡ rows_of p s.db) (insert_user email hash) _ s
                  refl (λ id now. insert_user-rows p email hash id now s.db)
                  (λ o t i. ground arith))
        ]
      ]
    ]
  ]

  login-rows :
      (secret : Bytes) (now : Time) (r : Request) (s : Store)
      → rows_of p (login secret now r s).1.db ≡ rows_of p s.db
  unfolding login
  login-rows secret now r s = ground arith

module _ {L : Type 0} ⦃lim : Limiting L⦄ ⦃fl : FloatOps⦄ ⦃lib : UuidLib⦄ ⦃crypto : CryptoLib⦄
    ⦃bcrypt : Bcrypt⦄ ⦃jwt : Jwt⦄ ⦃json : BodyJson⦄ ⦃group : Grouping⦄
    (split_host_port : Bytes → Option Bytes) (p owner : Uuid) where
  step-rows :
      (e : Event) (s : Server L)
      → IsOf p owner s.db
      → IsForeign owner e
      → rows_of p (step split_host_port e s).1.db ≡ rows_of p s.db
  unfolding step handle_open rate_limited list_models
  step-rows (asks route x r script) s is foreign =
      handle-rows p owner route x r (record { db = s.db; script = script }) is foreign
  step-rows (asks_open auth_signup x r script) s is foreign =
      let (allowed, v) = visit (address split_host_port r.remote_addr) (instant x.now) s.visitors in
      elim (Bool-cases allowed) [
        | inl e ↦ rw e (signup-rows p x.salt r (record { db = s.db; script = script }))
        | inr e ↦ rw e refl
      ]
  step-rows (asks_open auth_login x r script) s is foreign =
      let (allowed, v) = visit (address split_host_port r.remote_addr) (instant x.now) s.visitors in
      elim (Bool-cases allowed) [
        | inl e ↦ rw e (login-rows p x.jwt_secret x.now r (record { db = s.db; script = script }))
        | inr e ↦ rw e refl
      ]
  step-rows (asks_open models_list x r script) s is foreign = ground arith
  step-rows (ticks now) s is foreign = refl

  -- Whatever sequence of requests comes in, with any paths, queries and bodies, however their
  -- statements end, and with sweeps of the limiter between them: as long as no request carries a
  -- token of the project's owner, the project's row, its keys, its credentials and its budgets are
  -- at the end what they were. The project is there and its rows name that owner alone.
  pub rows_of-run :
      (es : List Event) (s : Server L)
      → IsOf p owner s.db
      → All (IsForeign owner) es
      → rows_of p (run split_host_port es s).1.db ≡ rows_of p s.db
  unfolding run
  rows_of-run [] s is foreign = refl
  rows_of-run (e ∷ es) s is (foreign, rest) =
      let s₁ = (step split_host_port e s).1 in
      let same = step-rows e s is foreign in
      rows_of-run es s₁ (IsOf-same p owner s.db s₁.db same is) rest ∙ same
