-- ===== src/Api/Auth.antt =====
-- api/auth.go, and the tokens of api/middleware.go. bcrypt and the JWT package are parameters.
use airelay.Base.{
  ℕ, ◌+◌, ◌*◌, ◌/◌, Bool, ◌||◌, not, Option, none, some, [], ◌∷◌, ◌++◌, Bytes, codes, bytes_eq,
  has_prefix, trim_prefix, ◌==◌, if◌then◌else◌, any, find,
}
use airelay.Time.{Time, instant, second, day_nanos}
use airelay.Uuid.{Uuid, UuidLib}
use airelay.Models.{User, UserPlan, plan_free}
use airelay.Api.Http.{
  text, object, field, end, Reply, write_json, write_error, Claims, Request, BodyJson,
}
use airelay.Api.Db.{Db, M, ◌>>=◌, ◌>>◌, pure, refuse_if, or_refuse, query, execute}
use airelay.Api.Projects.{is_empty, not_authenticated, row_of}

pub record Bcrypt : Type 0 where
  -- GenerateFromPassword at cost 12, with the salt that it reads; `none` is its error, such as for a
  -- password of more than 72 bytes
  pub hash_password : Bytes → Bytes → Option Bytes
  -- CompareHashAndPassword, `true` for no error
  pub matches : Bytes → Bytes → Bool

pub record Jwt : Type 0 where
  -- jwt.NewWithClaims(jwt.SigningMethodHS256, claims).SignedString(secret)
  pub sign : Claims → Bytes → Option Bytes
  -- the type assertion to *jwt.SigningMethodHMAC, by the name of the method
  pub is_hmac : Bytes → Bool
  -- jwt.ParseWithClaims with a function from the token's method to its key, at an instant
  pub parse_with_claims : (Bytes → Option Bytes) → Bytes → ℕ → Option Claims

abbrev to_second : ℕ → ℕ
to_second n = n / second * second

abbrev pub token_life : ℕ
token_life = 7 * day_nanos

-- The claims of a token that is issued at `now`. A jwt.NumericDate counts seconds.
unfoldable pub claims_at : Uuid → Bytes → UserPlan → Time → Claims
claims_at user email plan now = record {
  user_id = user;
  email = email;
  plan = plan;
  expires_at = to_second (instant now + token_life);
  issued_at = to_second (instant now);
}

module _ ⦃jwt : Jwt⦄ where
  -- IssueToken(userID, email, plan, secret)
  unfoldable pub issue_token : Uuid → Bytes → UserPlan → Bytes → Time → Option Bytes
  issue_token user email plan secret now = jwt.sign (claims_at user email plan now) secret

  -- The function that RequireAuth gives to the parser.
  abbrev pub key_for : Bytes → Bytes → Option Bytes
  key_for secret method = if jwt.is_hmac method then some secret else none

  unfoldable pub bearer : Bytes → Bytes → Time → Option Claims
  bearer secret header now =
      jwt.parse_with_claims (key_for secret) (trim_prefix header (codes "Bearer ")) (instant now)

  -- RequireAuth(secret)(next)
  unfoldable pub require_auth : Bytes → Time → (Request → M Reply) → Request → M Reply
  unfolding bearer
  require_auth secret now handler r = do
    refuse_if (not (has_prefix r.authorization (codes "Bearer ")))
        (write_error 401 (codes "missing or invalid authorization header"))
    claims ←
        or_refuse (bearer secret r.authorization now)
          (write_error 401 (codes "invalid or expired token"))
    handler (record r { claims = some claims })

-- What the INSERT … ON CONFLICT (email) DO NOTHING RETURNING id gives: `some none` is
-- pgx.ErrNoRows. The ids are unique.
unfoldable pub insert_user : Bytes → Bytes → Uuid → Time → Db → Option (Option Uuid × Db)
insert_user email hash id now db =
    if any (λ u. bytes_eq u.email email) db.users
    then some (none, db)
    else if any (λ u. u.id == id) db.users
    then none
    else some (
      some id,
      record db {
        users =
            db.users
            ++ record {
              id = id;
              email = email;
              password_hash = hash;
              plan = plan_free;
              stripe_customer_id = none;
              created_at = now;
            }
              ∷ [];
      },
    )

module _ ⦃lib : UuidLib⦄ where
  -- AuthHandler.Signup. `salt` is what bcrypt reads.
  unfoldable pub signup : ⦃bcrypt : Bcrypt⦄ → ⦃json : BodyJson⦄ → Bytes → Request → M Reply
  unfolding insert_user
  signup ⦃bcrypt⦄ ⦃json⦄ salt r = do
    (email, password) ←
        or_refuse (json.login r.body) (write_error 400 (codes "invalid request body"))
    refuse_if (is_empty email) (write_error 400 (codes "email is required"))
    refuse_if (is_empty password) (write_error 400 (codes "password is required"))
    hash ←
        or_refuse (bcrypt.hash_password salt password)
          (write_error 500 (codes "could not hash password"))
    done ← execute (insert_user email hash)
    row ← or_refuse done (write_error 500 (codes "could not create user"))
    id ← or_refuse row (write_error 409 (codes "email already registered"))
    pure (
        write_json 201 (
          object (
            field (codes "user_id") (text (lib.to_string id))
              (field (codes "plan") (text (codes "free")) end))))

  -- AuthHandler.Me
  unfoldable pub me : Request → M Reply
  me r = do
    claims ← or_refuse r.claims not_authenticated
    pure (
        write_json 200 (
          object (
            field (codes "user_id") (text (lib.to_string claims.user_id)) (
              field (codes "email") (text claims.email)
                (field (codes "plan") (text claims.plan) end)))))

abbrev bad_login : Reply
bad_login = write_error 401 (codes "invalid email or password")

-- SELECT id, password_hash, plan FROM users WHERE email=$1
abbrev pub user_by_email : Bytes → Db → Option User
user_by_email email db = find (λ u. bytes_eq u.email email) db.users

-- AuthHandler.Login, at the clock's reading `now`.
unfoldable pub login :
    ⦃bcrypt : Bcrypt⦄ → ⦃jwt : Jwt⦄ → ⦃json : BodyJson⦄ → Bytes → Time → Request → M Reply
unfolding issue_token
login ⦃bcrypt⦄ ⦃jwt⦄ ⦃json⦄ secret now r = do
  (email, password) ← or_refuse (json.login r.body) (write_error 400 (codes "invalid request body"))
  refuse_if (is_empty email || is_empty password)
      (write_error 400 (codes "email and password are required"))
  found ← query (user_by_email email)
  u ← or_refuse (row_of found) bad_login
  refuse_if (not (bcrypt.matches u.password_hash password)) bad_login
  token ←
      or_refuse (issue_token u.id email u.plan secret now)
        (write_error 500 (codes "could not issue token"))
  pure (write_json 200 (object (field (codes "token") (text token) end)))
