-- ===== src/Api/Server/Guarded.antt =====
-- Which requests reach a handler.
use airelay.Base.{
  ◌⊎◌, inl, inr, ℕ, ◌<◌, ◌≡◌, refl, true, false, Option, none, some, ◌++◌, Bytes, codes, has_prefix,
  trim_prefix, [], ◌∷◌,
}
use airelay.Float.{FloatOps}
use airelay.Time.{Time, instant}
use airelay.Uuid.{Uuid, UuidLib}
use airelay.Models.{UserPlan}
use airelay.Encrypt.{CryptoLib}
use airelay.Api.Http.{Reply, write_error, Claims, Request, BodyJson}
use airelay.Api.Db.{Store, stop}
use airelay.Api.Auth.{Bcrypt, Jwt, key_for, claims_at, issue_token, require_auth}
use airelay.Api.Usage.{Grouping}
use airelay.Api.Server.{Route, Inputs, handler_of, handle}

-- What the JWT package documents: a token that it signed is parsed under the same key until it
-- expires, and no token is parsed without a key for its method.
pub record JwtLaws (jwt : Jwt) : Type 1 where
  -- valid UTF-8, which encoding/json keeps
  pub IsText : Bytes → Type 0
  -- the method of a token's header
  pub method : Bytes → Bytes
  pub method-sign :
      (c : Claims) (key t : Bytes) → jwt.sign c key ≡ some t → method t ≡ codes "HS256"
  pub hs256_hmac : jwt.is_hmac (codes "HS256") ≡ true
  pub parse-sign :
      (c : Claims) (key t : Bytes) (keys : Bytes → Option Bytes) (now : ℕ)
      → jwt.sign c key ≡ some t
      → keys (method t) ≡ some key
      → IsText c.email
      → IsText c.plan
      → now < c.expires_at
      → jwt.parse_with_claims keys t now ≡ some c
  pub parse_keyless :
      (keys : Bytes → Option Bytes) (t : Bytes) (now : ℕ)
      → keys (method t) ≡ none
      → jwt.parse_with_claims keys t now ≡ none

trim_bearer : (t : Bytes) → trim_prefix (codes "Bearer " ++ t) (codes "Bearer ") ≡ t
trim_bearer [] = refl
trim_bearer (x ∷ t) = refl

module _ ⦃fl : FloatOps⦄ ⦃lib : UuidLib⦄ ⦃crypto : CryptoLib⦄ ⦃bcrypt : Bcrypt⦄ ⦃jwt : Jwt⦄
    ⦃json : BodyJson⦄ ⦃group : Grouping⦄ where
  -- A guarded route refuses with 401, and with no statement run, a request with no bearer token and
  -- one whose token has a method other than HMAC, whatever its claims and its signature are.
  pub handle_refuses :
      (laws : JwtLaws jwt) (route : Route) (x : Inputs) (r : Request) (s : Store)
      → (has_prefix r.authorization (codes "Bearer ") ≡ false)
        ⊎ ((t : Bytes) × (r.authorization ≡ codes "Bearer " ++ t)
            × (jwt.is_hmac (laws.method t) ≡ false))
      → (reply : Reply) × (handle route x r s ≡ (stop reply, s)) × (reply.status ≡ 401)
  unfolding handle require_auth
  handle_refuses laws route x r s (inl h) =
      (write_error 401 (codes "missing or invalid authorization header"), rw h refl, refl)
  handle_refuses laws route x r s (inr (t, e, k)) = (
    write_error 401 (codes "invalid or expired token"),
    rw (e, trim_bearer t, laws.parse_keyless (key_for x.jwt_secret) t (instant x.now) (rw k refl))
        refl,
    refl,
  )

  -- A token that IssueToken gave for a user, an email and a plan in valid UTF-8 reaches the handler of
  -- a guarded route, with these as its claims, until it expires.
  pub handle_accepts :
      (laws : JwtLaws jwt) (route : Route) (x : Inputs) (r : Request) (s : Store) (t email : Bytes)
      (user : Uuid) (plan : UserPlan) (issued : Time)
      → r.authorization ≡ codes "Bearer " ++ t
      → issue_token user email plan x.jwt_secret issued ≡ some t
      → laws.IsText email
      → laws.IsText plan
      → instant x.now < (claims_at user email plan issued).expires_at
      → handle route x r s
        ≡ handler_of route x (record r { claims = some (claims_at user email plan issued) }) s
  unfolding handle require_auth issue_token claims_at
  handle_accepts laws route x r s t email user plan issued e k is_email is_plan before =
      let c = claims_at user email plan issued in
      let keyed : key_for x.jwt_secret (laws.method t) ≡ some x.jwt_secret =
        rw (laws.method-sign c x.jwt_secret t k, laws.hs256_hmac) refl in
      let parsed =
        laws.parse-sign c x.jwt_secret t (key_for x.jwt_secret) (instant x.now) k keyed is_email
          is_plan before in
      rw (e, trim_bearer t, parsed) refl
