-- ===== src/Api/Server/Run.antt =====
-- api/server.go as a whole: the tables and the rate limiter of the open routes, over the requests that
-- come in, with the ticks of the limiter's sweep between them. One request is one step.
pub mod Foreign
pub mod Refines
use airelay.Base.{ℕ, Bool, Option, some, none, List, [], ◌∷◌, Bytes}
use airelay.Float.{FloatOps}
use airelay.Time.{instant, minute}
use airelay.Uuid.{UuidLib}
use airelay.Encrypt.{CryptoLib}
use airelay.Api.Http.{Reply, Request, BodyJson}
use airelay.Api.Db.{Db, Outcome, Store, Flow, reply_of}
use airelay.Api.Auth.{Bcrypt, Jwt}
use airelay.Api.Usage.{Grouping}
use airelay.Api.RateLimit.{Limiting, Visitors, address, visit, sweep}
use airelay.Api.Server.{
  Route, OpenRoute, auth_signup, auth_login, models_list, Inputs, handle, handle_open,
}

pub record Server (L : Type 0) : Type 0 where
  pub db : Db
  pub visitors : Visitors L

-- A request brings what it meets outside and how its statements end.
pub data Event : Type 0 where
  asks : Route → Inputs → Request → (ℕ → Outcome) → Event
  asks_open : OpenRoute → Inputs → Request → (ℕ → Outcome) → Event
  -- a tick of the sweep
  ticks : ℕ → Event

-- IPRateLimit(rate.Every(6*time.Second), 10, time.Minute)
abbrev pub cleanup_interval : ℕ
cleanup_interval = minute

module _ {L : Type 0} ⦃lim : Limiting L⦄ ⦃fl : FloatOps⦄ ⦃lib : UuidLib⦄ ⦃crypto : CryptoLib⦄
    ⦃bcrypt : Bcrypt⦄ ⦃jwt : Jwt⦄ ⦃json : BodyJson⦄ ⦃group : Grouping⦄
    (split_host_port : Bytes → Option Bytes) where
  -- A handler on the tables of the server.
  answered : Flow Reply × Store → Visitors L → Option Reply × Server L
  answered (flow, s) v = (some (reply_of flow), record { db = s.db; visitors = v })

  -- The routes behind `authRate` ask the limiter of the client's address first.
  limited : OpenRoute → Inputs → Request → (ℕ → Outcome) → Server L → Option Reply × Server L
  unfolding answered
  limited route x r script s =
      let (allowed, v) = visit (address split_host_port r.remote_addr) (instant x.now) s.visitors in
      answered
        (handle_open route (record x { allowed = allowed }) r
          (record { db = s.db; script = script }))
        v

  unfoldable pub step : Event → Server L → Option Reply × Server L
  unfolding answered limited
  step (asks route x r script) s =
      answered (handle route x r (record { db = s.db; script = script })) s.visitors
  step (asks_open auth_signup x r script) s = limited auth_signup x r script s
  step (asks_open auth_login x r script) s = limited auth_login x r script s
  step (asks_open models_list x r script) s =
      answered (handle_open models_list x r (record { db = s.db; script = script })) s.visitors
  step (ticks now) s = (none, record s { visitors = sweep cleanup_interval now s.visitors })

  -- The replies to a sequence of events, and the server behind it.
  unfoldable pub run : List Event → Server L → List (Option Reply) × Server L
  run [] s = ([], s)
  run (e ∷ es) s =
      let (reply, s₁) = step e s in let (replies, s₂) = run es s₁ in (reply ∷ replies, s₂)
