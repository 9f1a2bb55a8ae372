-- ===== src/Proxy/Server.antt =====
-- proxy/server.go with the constructors of proxy/: the service over a sequence of requests, rounds of
-- the two goroutines, and changes outside. net/http's mux picks the route, and its time-outs are left
-- out.
pub mod Bounds
use airelay.Base.{
  ℕ, Bool, Option, none, some, List, [], ◌∷◌, ◌++◌, Bytes, codes, drop, if◌then◌else◌,
}
use airelay.Float.{FloatOps}
use airelay.Uuid.{Uuid, UuidLib}
use airelay.Encrypt.{CryptoLib}
use airelay.Tokens.{JsonLib}
use airelay.Proxy.Event.{UsageEvent}
use airelay.Proxy.Backend.{Backend}
use airelay.Proxy.Budgets.{State}
use airelay.Proxy.Dlq.{Phase, sleeping, flushing, Dlq, new_dlq, wakes, cutoff, next_attempt}
use airelay.Proxy.Dlq
use airelay.Proxy.Logger.{Logger, write_usage_event, receive, flush}
use airelay.Proxy.Forward.{Request, Reply, HttpLib, no_header}
use airelay.Proxy.Handler.{
  Handler, Body, RequestJson, budgets_of, with_budgets, world_of, with_world,
}
use airelay.Proxy.Serve.{serve_http}

-- The handler, whose logger has the queue of the dead letter queue, and the retry goroutine.
pub record Server (W : Type 0) : Type 0 where
  pub handler : Handler W
  pub attempt : ℕ
  pub phase : Phase

pub data Event (W : Type 0) : Type 0 where
  -- a request to /proxy/, and one to /health
  asks : Request → Body → Event W
  asks_health : Event W
  -- a round of the loop of the logger, by an event or by its ticker
  receives ticks : Event W
  -- the end of the sleep of the retry goroutine, and the end of its flush
  awakes merges : Event W
  outside : (W → W) → Event W

-- `fmt.Fprint(w, "ok")`
abbrev pub healthy : Reply
healthy = record { status = some 200; header = no_header; body = codes "ok" }

module _ {W : Type 0} where
  -- NewBudgetChecker(db, rdb)
  unfoldable pub new_budget_checker : W → State W
  new_budget_checker w = record { world = w; cache = λ p. none }

  -- NewLogger(db, budgets), with NewDLQ(db)
  unfoldable pub new_logger : State W → Logger W
  unfolding new_dlq
  new_logger budgets = record { ch = []; batch = []; dlq = new_dlq.queue; budgets = budgets }

  -- NewHandler(db, rdb, encKey)
  unfoldable pub new_handler : W → Handler W
  new_handler w = record { logger = new_logger (new_budget_checker w); pricing_cache = λ k. none }

  -- NewServer(db, rdb, encKey), with the goroutine that NewDLQ starts
  unfoldable pub new_server : W → Server W
  unfolding new_dlq
  new_server w = record {
    handler = new_handler w;
    attempt = new_dlq.attempt;
    phase = new_dlq.phase;
  }

  with_logger : Server W → Logger W → Server W
  with_logger s l = record s { handler = record s.handler { logger = l } }

  -- The retry goroutine's view of the server; the rows are in the world.
  unfoldable pub dlq_of : Server W → Dlq
  dlq_of s = record {
    queue = s.handler.logger.dlq;
    attempt = s.attempt;
    phase = s.phase;
    rows = [];
  }

  awake : Server W → Dlq → Server W
  awake s d = record s { attempt = d.attempt; phase = d.phase }

module _ {W : Type 0} ⦃be : Backend W⦄ where
  -- d.flushBatch(ctx, batch): the events whose write fails.
  unfoldable pub flush_rows : List UsageEvent → State W → List UsageEvent × State W
  flush_rows [] s = ([], s)
  flush_rows (e ∷ batch) s =
      let (done, s₁) = write_usage_event e s in
      let (failed, s₂) = flush_rows batch s₁ in (if done then failed else e ∷ failed, s₂)

  merged : List UsageEvent → List UsageEvent × State W → Server W → Server W
  merged batch (failed, b) s =
      let queue = s.handler.logger.dlq in
      record {
        handler = record s.handler {
          logger = record s.handler.logger {
            dlq = failed ++ drop (cutoff batch queue) queue;
            budgets = b;
          };
        };
        attempt = next_attempt failed s.attempt;
        phase = sleeping;
      }

  retried : Server W → Phase → Server W
  unfolding merged
  retried s sleeping = s
  retried s (flushing batch) = merged batch (flush_rows batch (budgets_of s.handler)) s

module _ {W : Type 0} ⦃be : Backend W⦄ ⦃fl : FloatOps⦄ ⦃lib : UuidLib⦄ ⦃crypto : CryptoLib⦄
    ⦃http : HttpLib W⦄ ⦃json : JsonLib⦄ ⦃rj : RequestJson⦄ where
  answered : Server W → Reply × Handler W → Option Reply × Server W
  answered s (reply, h) = (some reply, record s { handler = h })

  unfoldable pub step : Bytes → Event W → Server W → Option Reply × Server W
  unfolding answered retried awake with_logger
  step enc_key (asks r body) s = answered s (serve_http enc_key r body s.handler)
  step enc_key asks_health s = (some healthy, s)
  step enc_key receives s = (none, with_logger s (receive s.handler.logger))
  step enc_key ticks s = (none, with_logger s (flush s.handler.logger))
  step enc_key awakes s = (none, awake s (Dlq.step (dlq_of s) wakes))
  step enc_key merges s = (none, retried s s.phase)
  step enc_key (outside f) s =
      (none, record s { handler = with_world s.handler (f (world_of s.handler)) })

  -- The replies in their order, and the server behind the events.
  unfoldable pub run : Bytes → List (Event W) → Server W → List (Option Reply) × Server W
  run enc_key [] s = ([], s)
  run enc_key (e ∷ rest) s =
      let (reply, s₁) = step enc_key e s in
      let (replies, s₂) = run enc_key rest s₁ in (reply ∷ replies, s₂)
