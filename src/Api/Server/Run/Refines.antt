-- ===== src/Api/Server/Run/Refines.antt =====
-- The server without the sweep of its limiter.
use airelay.Base.{ℕ, ◌*◌, ◌≤◌, ◌≡◌, refl, ap, Option, none, List, [], ◌∷◌, Bytes}
use airelay.Float.{FloatOps}
use airelay.Time.{instant}
use airelay.Uuid.{UuidLib}
use airelay.Encrypt.{CryptoLib}
use airelay.Api.Http.{Reply, Request, BodyJson}
use airelay.Api.Db.{Db, Outcome}
use airelay.Api.Auth.{Bcrypt, Jwt}
use airelay.Api.Usage.{Grouping}
use airelay.Api.RateLimit.{Limiting, Entry, Visitors, address, visit, sweep, limiter_in}
use airelay.Api.RateLimit.Refines.{
  Refills, Agree, unseen, Agree-later, evict-Agree, allow-Agree, put-Agree, no_visitors,
}
use airelay.Api.Server.{OpenRoute, auth_signup, auth_login, models_list, Inputs}
use airelay.Api.Server.Run.{
  Server, Event, asks, asks_open, ticks, cleanup_interval, step, run, answered, limited,
}

-- When an event happens.
abbrev pub time_of : Event → ℕ
time_of (asks route x r script) = instant x.now
time_of (asks_open route x r script) = instant x.now
time_of (ticks now) = now

abbrev pub InOrder : ℕ → List Event → Type 0
InOrder t [] = Unit {0}
InOrder t (e ∷ es) = (t ≤ time_of e) × InOrder (time_of e) es

module _ {L : Type 0} ⦃lim : Limiting L⦄ ⦃fl : FloatOps⦄ ⦃lib : UuidLib⦄ ⦃crypto : CryptoLib⦄
    ⦃bcrypt : Bcrypt⦄ ⦃jwt : Jwt⦄ ⦃json : BodyJson⦄ ⦃group : Grouping⦄
    (split_host_port : Bytes → Option Bytes) where
  -- A server that keeps every limiter for ever.
  keeping_step : Event → Server L → Option Reply × Server L
  keeping_step (ticks now) s = (none, s)
  keeping_step (asks route x r script) s = step split_host_port (asks route x r script) s
  keeping_step (asks_open route x r script) s = step split_host_port (asks_open route x r script) s

  pub keeping_run : List Event → Server L → List (Option Reply) × Db
  unfolding keeping_step
  keeping_run [] s = ([], s.db)
  keeping_run (e ∷ es) s =
      let (reply, s₁) = keeping_step e s in
      let (replies, db) = keeping_run es s₁ in (reply ∷ replies, db)

  module _ (refill : ℕ) (laws : Refills lim refill) (enough : refill ≤ 2 * cleanup_interval) where
    -- Two servers with one database, whose limiters agree.
    record IsAlike (t : ℕ) (s k : Server L) : Type 0 where
      same_db : s.db ≡ k.db
      agree : (ip : Bytes) → Agree cleanup_interval refill t (s.visitors ip) (k.visitors ip)

    visit-Agree :
        (t now : ℕ) (ip : Bytes) (v a : Visitors L)
        → t ≤ now
        → ((j : Bytes) → Agree cleanup_interval refill t (v j) (a j))
        → ((visit ip now v).0 ≡ (visit ip now a).0)
          × ((j : Bytes)
              → Agree cleanup_interval refill now ((visit ip now v).1 j) ((visit ip now a).1 j))
    unfolding visit limiter_in
    visit-Agree t now ip v a le h =
        let same = allow-Agree cleanup_interval refill t now laws le (h ip) in
        let e : Entry L = record {
          limiter = (lim.allow now (limiter_in (a ip))).1;
          last_seen = now;
        } in
        rw same (
          refl,
          λ j.
              put-Agree cleanup_interval refill ip j now e v a (limiter_in (a ip), refl)
                (Agree-later cleanup_interval refill t now le (h j)),
        )

    -- The answers are the same, and the servers behind them are alike.
    record IsStepAlike (t : ℕ) (a b : Option Reply × Server L) : Type 0 where
      same_reply : a.0 ≡ b.0
      alike : IsAlike t a.1 b.1

    limited-IsStepAlike :
        (route : OpenRoute) (x : Inputs) (r : Request) (script : ℕ → Outcome) (t : ℕ)
        (s k : Server L)
        → t ≤ instant x.now
        → IsAlike t s k
        → IsStepAlike
            (instant x.now)
            (limited split_host_port route x r script s)
            (limited split_host_port route x r script k)
    unfolding limited answered
    limited-IsStepAlike route x r script t s k le is =
        let ip = address split_host_port r.remote_addr in
        let (same, agree) = visit-Agree t (instant x.now) ip s.visitors k.visitors le is.agree in
        rw (same, is.same_db)
          (record { same_reply = refl; alike = record { same_db = refl; agree = agree } })

    step-IsStepAlike :
        (e : Event) (t : ℕ) (s k : Server L)
        → t ≤ time_of e
        → IsAlike t s k
        → IsStepAlike (time_of e) (step split_host_port e s) (keeping_step e k)
    unfolding step keeping_step sweep
    step-IsStepAlike (asks route x r script) t s k le is = rw is.same_db (record {
      same_reply = refl;
      alike = record {
        same_db = refl;
        agree = λ ip. Agree-later cleanup_interval refill t (instant x.now) le (is.agree ip);
      };
    })
    step-IsStepAlike (asks_open auth_signup x r script) t s k le is =
        limited-IsStepAlike auth_signup x r script t s k le is
    step-IsStepAlike (asks_open auth_login x r script) t s k le is =
        limited-IsStepAlike auth_login x r script t s k le is
    step-IsStepAlike (asks_open models_list x r script) t s k le is = rw is.same_db (record {
      same_reply = refl;
      alike = record {
        same_db = refl;
        agree = λ ip. Agree-later cleanup_interval refill t (instant x.now) le (is.agree ip);
      };
    })
    step-IsStepAlike (ticks now) t s k le is = record {
      same_reply = refl;
      alike = record {
        same_db = is.same_db;
        agree = λ ip. evict-Agree cleanup_interval refill t now enough le (is.agree ip);
      };
    }

    run-eq-keeping_run :
        (es : List Event) (t : ℕ) (s k : Server L)
        → InOrder t es
        → IsAlike t s k
        → ((run split_host_port es s).0, (run split_host_port es s).1.db) ≡ keeping_run es k
    unfolding run keeping_run
    run-eq-keeping_run [] t s k o is = rw is.same_db refl
    run-eq-keeping_run (e ∷ es) t s k (le, o) is =
        let one = step-IsStepAlike e t s k le is in
        let rest =
          run-eq-keeping_run es (time_of e) (step split_host_port e s).1 (keeping_step e k).1 o
            one.alike in
        rw one.same_reply
          (ap (λ (r : List (Option Reply) × Db). ((keeping_step e k).0 ∷ r.0, r.1)) rest)

  -- If a limiter is full again after two intervals of the sweep without a request, then for every
  -- sequence of requests and sweeps, in the order of the clock, the server answers each request
  -- and leaves the tables exactly as a server whose limiters are kept for ever: the sweep changes
  -- no reply, and no row.
  pub run_refines :
      (refill : ℕ) (es : List Event) (t : ℕ) (db : Db)
      → Refills lim refill
      → refill ≤ 2 * cleanup_interval
      → InOrder t es
      → let start : Server L = record { db = db; visitors = no_visitors } in
        ((run split_host_port es start).0, (run split_host_port es start).1.db)
        ≡ keeping_run es start
  run_refines refill es t db laws enough o =
      let start : Server L = record { db = db; visitors = no_visitors } in
      run-eq-keeping_run refill laws enough es t start start o
        (record { same_db = refl; agree = λ ip. unseen })
