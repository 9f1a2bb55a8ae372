-- ===== src/Tests/Api/Limits.antt =====
-- How much a user may do: the theorems on the quotas and the rate limits, at concrete inputs.
use airelay.Base.{◌≤◌, inr, some, [], ◌∷◌, codes, arith}
use airelay.Api.Plans.{limits}
use airelay.Api.Auth.{claims_at}
use airelay.Api.Server.{Route, handler_of}
use airelay.Api.Server.Quota.{QuotaKept, handler_of-QuotaKept}
use airelay.Api.Projects.{active_projects, insert_project}
use airelay.Api.Projects.Race.{
  waiting, Creations, ended, locks_at, counts_at, locks, counts, aborts, commits, Reaches, stays,
  then_step, active_projects-Reaches,
}
use airelay.Api.Db.{Db}
use airelay.Base.{none, refl}
use airelay.Tests.{noon, toy_uuid, toy_float, toy_crypto}
use airelay.Tests.Api.{
  toy_bcrypt, toy_jwt, toy_body, toy_grouping, project_of, toy_store, toy_claims, toy_inputs,
  request_for,
}

within : QuotaKept toy_claims 7 toy_store.db
unfolding QuotaKept limits claims_at
within = (inr (omega arith), inr (omega arith))

-- A second project on the free plan.
handler_of-QuotaKept_example :
    QuotaKept toy_claims 7
      (handler_of Route.projects_create toy_inputs
        (record (request_for 7) { claims = some toy_claims })
        toy_store).1.db
handler_of-QuotaKept_example =
    handler_of-QuotaKept Route.projects_create toy_inputs (request_for 7) toy_claims 7 toy_store
      within

-- Two creations at once on tables that have no project of user 9's: the second one waits for the
-- lock, counts the first one's row, and is refused.
abbrev empty_db : Db
empty_db = record toy_store.db { projects = [] }

abbrev at_rest : Creations
at_rest = record { db = empty_db; stage = λ i. waiting; holder = none }

abbrev full_db : Db
full_db = record empty_db { projects = project_of 7 5 (codes "demo-1") ∷ [] }

abbrev first_ended : Creations
first_ended = ended 0 full_db (counts_at 0 (locks_at 0 at_rest))

two_creations : Reaches 5 1 at_rest (ended 1 full_db (locks_at 1 first_ended))
unfolding insert_project
two_creations =
    then_step _ _ _
      (then_step _ _ _
        (then_step _ _ _
          (then_step _ _ _ (then_step _ _ _ (stays _) (locks _ 0 refl refl))
            (counts _ 0 refl (omega arith)))
          (commits _ 0 (codes "demo") (codes "demo-1") 7 noon full_db refl refl))
        (locks _ 1 refl refl))
      (aborts _ 1 refl)

active_projects-Reaches_example : active_projects 5 full_db ≤ 1
active_projects-Reaches_example =
    active_projects-Reaches 5 1 at_rest (ended 1 full_db (locks_at 1 first_ended)) (omega arith)
      (λ i. refl) two_creations
