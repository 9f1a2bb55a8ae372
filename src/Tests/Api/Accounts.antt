-- ===== src/Tests/Api/Accounts.antt =====
-- The theorem on signups and logins, at a concrete input.
use airelay.Base.{◌<◌, ◌≡◌, refl, some, [], ◌∷◌, ◌++◌, Bytes, codes, bytes_eq_iff}
use airelay.Base.{arith}
use airelay.Time.{instant}
use airelay.Models.{plan_free}
use airelay.Api.Http.{text, object, field, end, Reply, write_json, Claims, Request}
use airelay.Api.Db.{next}
use airelay.Api.Auth.{signup, login, issue_token, claims_at}
use airelay.Api.Server.{Route, handler_of, handle}
use airelay.Api.Server.Signup.{BcryptLaws, signup-login-handle}
use airelay.Tests.{noon, toy_uuid, toy_float, toy_crypto, letters}
use airelay.Tests.Api.{
  toy_bcrypt, toy_jwt, toy_body, toy_grouping, toy_jwt-JwtLaws, toy_store, toy_inputs, request_for,
}

toy_bcrypt-BcryptLaws : BcryptLaws toy_bcrypt
toy_bcrypt-BcryptLaws = record {
  matches-hash_password =
      λ salt password hash h. let e : hash ≡ password = cc in (bytes_eq_iff hash password).1 e;
}

-- The body is taken for the email and for the password.
abbrev joining : Request
joining = record (request_for 7) { body = codes "a@b.c" }

abbrev joined : Claims
joined = claims_at 20 (codes "a@b.c") plan_free noon

abbrev joined_token : Bytes
joined_token = 1 ∷ 20 ∷ joined.expires_at ∷ joined.issued_at ∷ codes "a@b.c"

-- A request with the new token.
abbrev returning : Request
returning = record (request_for 7) { authorization = codes "Bearer " ++ joined_token }

joined_issued : issue_token 20 (codes "a@b.c") plan_free (letters 32) noon ≡ some joined_token
unfolding issue_token claims_at
joined_issued = refl

not_expired : instant toy_inputs.now < joined.expires_at
unfolding claims_at
not_expired = omega arith

signup-login-handle_example :
    let signed = signup [] joining toy_store in
    let logged = login (letters 32) noon joining signed.1 in
    ((reply : Reply) × (signed.0 ≡ next reply) × (reply.status ≡ 201))
    × (logged.0 ≡ next (write_json 200 (object (field (codes "token") (text joined_token) end))))
    × (handle Route.projects_list toy_inputs returning logged.1
        ≡ handler_of Route.projects_list toy_inputs
            (record returning { claims = some joined })
            logged.1)
unfolding toy_jwt-JwtLaws
signup-login-handle_example =
    signup-login-handle toy_bcrypt-BcryptLaws toy_jwt-JwtLaws joining toy_store [] (codes "a@b.c")
      (codes "a@b.c") (codes "a@b.c") (letters 32) joined_token noon Route.projects_list toy_inputs
      returning refl refl refl refl refl refl refl refl joined_issued tt tt refl refl not_expired
