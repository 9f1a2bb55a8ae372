-- ===== src/Api/Server/Signup.antt =====
-- From a signup over a login to a guarded route.
use airelay.Base.{
  ◌<◌, ◌≡◌, refl, true, false, none, some, List, [], ◌∷◌, ◌++◌, Bytes, codes, bytes_eq,
  bytes_eq_refl, any, find, ◌==◌, arith,
}
use airelay.Float.{FloatOps}
use airelay.Time.{Time, instant}
use airelay.Uuid.{UuidLib}
use airelay.Models.{User, plan_free}
use airelay.Encrypt.{CryptoLib}
use airelay.Api.Http.{text, object, field, end, Reply, write_json, Request, BodyJson}
use airelay.Api.Db.{Store, next}
use airelay.Api.Projects.{is_empty}
use airelay.Api.Auth.{Bcrypt, Jwt, signup, insert_user, login, issue_token, claims_at}
use airelay.Api.Usage.{Grouping}
use airelay.Api.Server.{Route, Inputs, handler_of, handle}
use airelay.Api.Server.Guarded.{JwtLaws, handle_accepts}

-- What bcrypt documents: a password matches its own hash.
pub record BcryptLaws (bcrypt : Bcrypt) : Type 0 where
  pub matches-hash_password :
      (salt password hash : Bytes)
      → bcrypt.hash_password salt password ≡ some hash
      → bcrypt.matches hash password ≡ true

find-append :
    (email : Bytes) (us : List User) (u : User)
    → any (λ x. bytes_eq x.email email) us ≡ false
    → bytes_eq u.email email ≡ true
    → find (λ x. bytes_eq x.email email) (us ++ u ∷ []) ≡ some u
find-append email [] u h k = rw k refl
find-append email (x ∷ us) u h k = ground (arith, find-append email us u)

module _ ⦃fl : FloatOps⦄ ⦃lib : UuidLib⦄ ⦃crypto : CryptoLib⦄ ⦃bcrypt : Bcrypt⦄ ⦃jwt : Jwt⦄
    ⦃json : BodyJson⦄ ⦃group : Grouping⦄ where
  -- Where a signup with a new email and a new id runs, with an email and a password that are not empty
  -- and that bcrypt can hash, its reply is 201; a login with the same body then gives the token that
  -- JWT signs for the new user on the free plan; and a request with that token reaches the handler of
  -- any guarded route as that user, until the token expires. The email is in valid UTF-8.
  pub signup-login-handle :
      (laws : BcryptLaws bcrypt) (jwt_laws : JwtLaws jwt) (r : Request) (s : Store)
      (salt email password hash secret t : Bytes) (now : Time) (route : Route) (x : Inputs)
      (r' : Request)
      → json.login r.body ≡ some (email, password)
      → is_empty email ≡ false
      → is_empty password ≡ false
      → bcrypt.hash_password salt password ≡ some hash
      → (s.script 0).ok ≡ true
      → (s.script 1).ok ≡ true
      → any (λ u. bytes_eq u.email email) s.db.users ≡ false
      → any (λ u. u.id == (s.script 0).id) s.db.users ≡ false
      → issue_token (s.script 0).id email plan_free secret now ≡ some t
      → jwt_laws.IsText email
      → jwt_laws.IsText plan_free
      → x.jwt_secret ≡ secret
      → r'.authorization ≡ codes "Bearer " ++ t
      → instant x.now < (claims_at (s.script 0).id email plan_free now).expires_at
      → let signed = signup salt r s in
        let logged = login secret now r signed.1 in
        ((reply : Reply) × (signed.0 ≡ next reply) × (reply.status ≡ 201))
        × (logged.0 ≡ next (write_json 200 (object (field (codes "token") (text t) end))))
        × (handle route x r' logged.1
            ≡ handler_of route x
                (record r' { claims = some (claims_at (s.script 0).id email plan_free now) })
                logged.1)
  unfolding signup insert_user login
  signup-login-handle laws jwt_laws r s salt email password hash secret t now route x r' b ne np h
        ok0 ok1 new fresh signs is_email is_plan e a before =
      let u : User = record {
        id = (s.script 0).id;
        email = email;
        password_hash = hash;
        plan = plan_free;
        stripe_customer_id = none;
        created_at = (s.script 0).now;
      } in
      let found = find-append email s.db.users u new (bytes_eq_refl email) in
      let matched = laws.matches-hash_password salt password hash h in
      (
        rw (b, ne, np, h, ok0, new, fresh) (_, refl, refl),
        rw (b, ne, np, h, ok0, new, fresh, ok1, found, matched, signs) refl,
        let issued : issue_token (s.script 0).id email plan_free x.jwt_secret now ≡ some t =
              rw e signs in
            handle_accepts jwt_laws route x r' _ t email (s.script 0).id plan_free now a issued
              is_email is_plan before,
      )
