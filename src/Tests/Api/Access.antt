-- ===== src/Tests/Api/Access.antt =====
-- Who may do what: the theorems on the routes and the keys, at concrete inputs.
use airelay.Base.{
  ℕ, ◌+◌, ◌≡◌, ◌==◌, ◌||◌, inl, find, refl, true, false, none, some, [], codes, bytes_eq,
  if◌then◌else◌, any, arith,
}
use airelay.Uuid.{Uuid}
use airelay.Models.{AiProvider, provider_openai, plan_free, plan_pro}
use airelay.Api.Http.{Request, Claims, Reply, no_content, write_error}
use airelay.Api.Db.{stop, next}
use airelay.Api.Projects.{owned, delete_project}
use airelay.Api.Keys.{create_key, active_keys, revoke_key, is_active_key}
use airelay.Api.Auth.{issue_token, claims_at}
use airelay.Api.Server.{Route, handler_of, handle}
use airelay.Api.Server.Guarded.{handle_refuses}
use airelay.Api.Server.Rows.{rows_of}
use airelay.Api.Server.Isolation.{handler_of-isolates}
use airelay.Api.Credentials.{is_current}
use airelay.Api.Plans.{limits}
use airelay.Api.Server.Writes.{Below}
use airelay.Encoding.Hex.{hex_encode}
use airelay.Proxy.Auth.{generate_key, hash_key}
use airelay.Api.Lifecycle.Created.{create_key-credential_query}
use airelay.Api.Lifecycle.{row_for}
use airelay.Api.Lifecycle.{
  credential_query, revoke_key-credential_query, delete_project-credential_query,
}
use airelay.Tests.{noon, toy_uuid, toy_float, toy_crypto}
use airelay.Tests.Api.{
  toy_bcrypt, toy_jwt, toy_body, toy_grouping, toy_jwt-JwtLaws, toy_store, toy_claims, toy_inputs,
  toy_token, request_for,
}

-- A request that has another kind of authorization.
abbrev basic : Request
basic = record (request_for 7) { authorization = codes "Basic YTpi" }

handle_refuses_example :
    (reply : Reply) × (handle Route.keys_list toy_inputs basic toy_store ≡ (stop reply, toy_store))
    × (reply.status ≡ 401)
handle_refuses_example =
    handle_refuses toy_jwt-JwtLaws Route.keys_list toy_inputs basic toy_store (inl refl)

-- The token of the example is one that IssueToken gives.
issued_example : issue_token 5 [] plan_free toy_inputs.jwt_secret noon ≡ some toy_token
unfolding issue_token claims_at
issued_example = refl

owned_8 : owned 8 toy_claims.user_id toy_store.db ≡ false
unfolding owned claims_at
owned_8 = refl

owned_7 : owned 7 toy_claims.user_id toy_store.db ≡ true
unfolding owned claims_at
owned_7 = refl

-- User 5 asks for a key of user 6's project.
handler_of-isolates_example :
    rows_of 8
      (handler_of Route.keys_create toy_inputs
        (record (request_for 8) { claims = some toy_claims })
        toy_store).1.db
    ≡ rows_of 8 toy_store.db
handler_of-isolates_example =
    handler_of-isolates Route.keys_create toy_inputs (request_for 8) toy_claims toy_store 8 refl
      owned_8

revoke_key-credential_query_example :
    let (flow, s') = revoke_key (record (request_for 7) { claims = some toy_claims }) toy_store in
    (credential_query (codes "hash") provider_openai s'.db ≡ none)
    × (flow ≡ (
        if any (is_active_key 3 7) toy_store.db.api_keys
        then next no_content
        else stop (write_error 404 (codes "key not found"))))
revoke_key-credential_query_example =
    revoke_key-credential_query (request_for 7) toy_claims toy_store 7 3 (codes "hash")
      provider_openai refl refl refl refl owned_7 ((λ e. refl), tt)

delete_project-credential_query_example :
    credential_query
      (codes "hash")
      provider_openai
      (delete_project (record (request_for 7) { claims = some toy_claims }) toy_store).1.db
    ≡ credential_query (codes "hash") provider_openai toy_store.db
delete_project-credential_query_example =
    delete_project-credential_query (request_for 7) toy_claims toy_store (codes "hash")
      provider_openai

-- A user of the plan without limits.
abbrev pro_claims : Claims
pro_claims = claims_at 5 [] plan_pro noon

new_hash_example :
    (n : ℕ)
    → any
        (λ k. k.id == 20 + n || bytes_eq k.key_hash (generate_key toy_inputs.random).2)
        toy_store.db.api_keys
      ≡ false
unfolding generate_key hash_key hex_encode
new_hash_example n = ground arith

owned_pro : owned 7 pro_claims.user_id toy_store.db ≡ true
unfolding owned claims_at
owned_pro = refl

no_limit : Below (limits pro_claims.plan).max_keys (active_keys 7 toy_store.db)
unfolding limits claims_at
no_limit = inl refl

create_key-credential_query_example :
    let (full, prefix, hash) = generate_key toy_inputs.random in
    let (flow, s') =
      create_key toy_inputs.random
        (record (request_for 7) { claims = some pro_claims })
        toy_store in
    ((reply : Reply) × (flow ≡ next reply) × (reply.status ≡ 201))
    × ((id : Uuid) × ((provider : AiProvider)
          → credential_query hash provider s'.db
            ≡ row_for id 7 (find (is_current 7 provider) toy_store.db.provider_credentials) none))
create_key-credential_query_example =
    create_key-credential_query toy_inputs.random (request_for 7) pro_claims toy_store 7
      (codes "demo") refl refl (λ n. refl) owned_pro no_limit new_hash_example
