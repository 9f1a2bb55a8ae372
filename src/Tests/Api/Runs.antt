-- ===== src/Tests/Api/Runs.antt =====
-- The theorems on whole runs of the server of the API, at concrete inputs.
use airelay.Base.{
  ℕ, ◌+◌, ◌≡◌, refl, true, false, ◌&&◌, Option, some, none, List, [], ◌∷◌, Bytes, codes, leb, ltb,
  if◌then◌else◌, ◌==◌, arith,
}
use airelay.Time.{instant}
use airelay.Api.Http.{Claims}
use airelay.Api.Auth.{bearer, claims_at}
use airelay.Api.RateLimit.{Limiting}
use airelay.Api.RateLimit.Refines.{Refills, no_visitors}
use airelay.Api.Server.{Route, auth_signup}
use airelay.Api.Server.Rows.{rows_of}
use airelay.Api.Server.Run.{Server, Event, asks, asks_open, ticks, run}
use airelay.Api.Server.Run.Foreign.{rows_of-run}
use airelay.Api.Server.Run.Refines.{keeping_run, run_refines}
use airelay.Tests.{noon, toy_uuid, toy_float, toy_crypto}
use airelay.Tests.Api.{
  toy_bcrypt, toy_jwt, toy_body, toy_grouping, toy_store, toy_inputs, request_for,
}

-- One request in ten instants: the state is the instant behind the last one, or 0.
instance abbrev toy_limiting : Limiting ℕ
toy_limiting = record {
  fresh = 0;
  allow = λ now l.
      if ltb 0 l && leb l (now + 1) && ltb (now + 1) (l + 10) then (false, l) else (true, now + 1);
}

toy_limiting-Refills : Refills toy_limiting 20
toy_limiting-Refills = record { refilled = λ l t t' h. ground arith }

-- The address has no port.
abbrev no_port : Bytes → Option Bytes
no_port s = none

-- A stranger signs up, user 5 deletes project 8, and the limiter sweeps.
abbrev toy_events : List Event
toy_events =
    asks_open auth_signup toy_inputs (record (request_for 7) { body = codes "a@b.c" })
      toy_store.script
    ∷ asks Route.projects_delete toy_inputs (request_for 8) toy_store.script
    ∷ ticks (instant noon + 1)
    ∷ []

abbrev started : Server ℕ
started = record { db = toy_store.db; visitors = no_visitors }

-- The token is that of user 5.
IsForeign_toy :
    (c : Claims)
    → bearer toy_inputs.jwt_secret (request_for 8).authorization noon ≡ some c
    → (c.user_id == 6) ≡ false
unfolding bearer claims_at
IsForeign_toy c h = ground arith

rows_of-run_example : rows_of 8 (run no_port toy_events started).1.db ≡ rows_of 8 toy_store.db
rows_of-run_example =
    rows_of-run no_port 8 6 toy_events started (refl, (refl, tt)) (tt, (IsForeign_toy, (tt, tt)))

run_refines_example :
    ((run no_port toy_events started).0, (run no_port toy_events started).1.db)
    ≡ keeping_run no_port toy_events started
run_refines_example =
    run_refines no_port 20 toy_events 0 toy_store.db toy_limiting-Refills (omega arith)
      (omega arith, (omega arith, (omega arith, tt)))
