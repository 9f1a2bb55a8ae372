-- ===== src/Tests/Api/Others.antt =====
-- The theorem on the rows of others, at a concrete input.
use airelay.Base.{◌≡◌, ◌==◌, refl, true, some, [], ◌∷◌, codes, Bool-cases, inl, inr, arith}
use airelay.Uuid.{Uuid}
use airelay.Models.{ApiKey}
use airelay.Api.Http.{Request}
use airelay.Api.Db.{Db}
use airelay.Api.Projects.{owned}
use airelay.Api.Auth.{claims_at}
use airelay.Api.Server.{Route, handler_of}
use airelay.Api.Server.Private.{IsSameFor, owned_rows, reads, handler_of-private}
use airelay.Tests.{toy_uuid, toy_float, toy_crypto}
use airelay.Tests.Api.{
  toy_bcrypt, toy_jwt, toy_body, toy_grouping, toy_store, toy_claims, toy_inputs, toy_key,
  request_for,
}

-- User 6 has a key in project 8.
abbrev key_of_other : ApiKey
key_of_other = record toy_key { id = 13; project_id = 8; key_hash = codes "other" }

abbrev db_with_other : Db
db_with_other = record toy_store.db { api_keys = toy_key ∷ key_of_other ∷ [] }

same_rows_lem :
    (q : Uuid)
    → owned q toy_claims.user_id toy_store.db ≡ true
    → owned_rows q toy_store.db ≡ owned_rows q db_with_other
unfolding owned claims_at
same_rows_lem q o = elim (Bool-cases (8 == q)) [ inl e ↦ ground arith | inr e ↦ rw e refl ]

without_other : IsSameFor toy_claims.user_id toy_store.db db_with_other
unfolding owned claims_at
without_other = record { same_projects = refl; same_owned = λ q. refl; same_rows = same_rows_lem }

handler_of-private_example :
    let asked : Request = record (request_for 7) { claims = some toy_claims } in
    (handler_of Route.keys_list toy_inputs asked toy_store).0
    ≡ (handler_of Route.keys_list toy_inputs asked (record toy_store { db = db_with_other })).0
unfolding reads
handler_of-private_example =
    handler_of-private Route.keys_list toy_inputs (request_for 7) toy_claims toy_store db_with_other
      refl without_other
