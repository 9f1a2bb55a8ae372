-- ===== src/Tests/Api/Stored.antt =====
-- The theorem on added credentials, at a concrete input.
use airelay.Base.{◌≡◌, refl, true, some, codes, arith}
use airelay.Models.{provider_openai}
use airelay.Proxy.Backend.{Backend}
use airelay.Proxy.Auth.{resolve_from_db}
use airelay.Api.Http.{Reply, Request}
use airelay.Api.Db.{Store, Flow, next}
use airelay.Api.Projects.{owned}
use airelay.Api.Credentials.{add_credential}
use airelay.Api.Auth.{claims_at}
use airelay.Api.Lifecycle.{credential_in, credential_query}
use airelay.Api.Lifecycle.Resolved.{IsLiveKey, add_credential-resolve_from_db}
use airelay.Tests.{World, quiet, toy_backend, toy_uuid, toy_crypto, toy_crypto-CryptoLaws, letters}
use airelay.Tests.Api.{toy_body, toy_store, toy_claims, request_for}

-- User 5 replaces the credential of project 7.
abbrev replacing : Request
replacing = record (request_for 7) { claims = some toy_claims; body = codes "sk-2" }

replaced : Flow Reply × Store
replaced = add_credential (letters 32) (some (letters 12)) replacing toy_store

-- The proxy's Postgres has the tables behind that.
abbrev after : Backend World
unfolding replaced
after = record toy_backend {
  db_credential = λ hash provider w. (credential_query hash provider replaced.1.db, w);
}

live : IsLiveKey (codes "hash") 3 7 toy_store.db
unfolding credential_in
live provider creds = refl

owned_7 : owned 7 toy_claims.user_id toy_store.db ≡ true
unfolding owned claims_at
owned_7 = refl

add_credential-resolve_from_db_example :
    ((reply : Reply) × (replaced.0 ≡ next reply) × (reply.status ≡ 201))
    × ((resolve_from_db ⦃be = after⦄ (letters 32) (codes "hash") provider_openai quiet).0
        ≡ some (record {
          api_key_id = 3;
          project_id = 7;
          provider = provider_openai;
          plain_key = codes "sk-2";
        }))
unfolding replaced
add_credential-resolve_from_db_example =
    add_credential-resolve_from_db ⦃be = after⦄ toy_crypto-CryptoLaws replacing toy_claims toy_store
      7 3 provider_openai (codes "sk-2") (codes "hash") (letters 12) (letters 32) quiet refl refl
      refl refl refl (ground arith) refl refl owned_7 refl live refl
