-- ===== src/Proxy/Server/Bounds.antt =====
-- How much the service holds in memory, over any sequence of events.
use airelay.Base.{
  ℕ, ◌≤◌, ◌<◌, ◌≡◌, refl, inl, inr, ◌⊎◌, ap, List, [], ◌∷◌, ◌++◌, Bytes, length, length-append,
  arith,
}
use airelay.Float.{FloatOps}
use airelay.Uuid.{UuidLib}
use airelay.Encrypt.{CryptoLib}
use airelay.Tokens.{JsonLib}
use airelay.Proxy.Event.{UsageEvent}
use airelay.Proxy.Backend.{Backend}
use airelay.Proxy.Budgets.{State}
use airelay.Proxy.Dlq.{
  Phase, sleeping, flushing, Dlq, new_dlq, wakes, dlq_cap, cutoff, next_attempt,
}
use airelay.Proxy.Dlq
use airelay.Proxy.Dlq.Bounds.{
  length-enqueue, InFlight, InFlight-mono, merge-bounded, queue-wakes, next_attempt-le,
}
use airelay.Proxy.Dlq.Bounds as DlqBounds
use airelay.Proxy.Logger.{Logger, Action, channel_cap, write_usage_event, flush, receive}
use airelay.Proxy.Logger.Bounds.{receive-grows, flush-grows}
use airelay.Proxy.Logger.Bounds as LoggerBounds
use airelay.Proxy.Forward.{HttpLib}
use airelay.Proxy.Handler.{Handler, RequestJson, budgets_of}
use airelay.Proxy.Serve.Queues.{Logs, serve_http-Logs}
use airelay.Proxy.Server.{
  Server, Event, asks, asks_health, receives, ticks, awakes, merges, outside, new_server,
  new_handler, new_logger, dlq_of, awake, flush_rows, merged, retried, answered, with_logger, step,
  run,
}

-- The channel and the queue have 50,000 events at most and the batch under 100; a snapshot of the
-- queue is no longer than the queue, and the number of the attempt is in the table of backoffs.
pub record IsBounded {W : Type 0} (s : Server W) : Type 0 where
  pub logger : LoggerBounds.IsValid s.handler.logger
  pub retry : DlqBounds.IsValid (dlq_of s)

module _ {W : Type 0} where
  -- The retry goroutine does not mind a queue that has grown.
  grown-IsBounded :
      (s : Server W) (l : Logger W)
      → length s.handler.logger.dlq ≤ length l.dlq
      → LoggerBounds.IsValid l
      → IsBounded s
      → IsBounded (with_logger s l)
  unfolding with_logger dlq_of
  grown-IsBounded s l h v b = record {
    logger = v;
    retry = record {
      bounded = v.dlq_le;
      in_flight =
          InFlight-mono (length s.handler.logger.dlq) (length l.dlq) s.phase h b.retry.in_flight;
      backed_off = b.retry.backed_off;
    };
  }

module _ {W : Type 0} where
  awake-IsBounded :
      (s : Server W) (d : Dlq)
      → d.queue ≡ s.handler.logger.dlq
      → DlqBounds.IsValid d
      → IsBounded s
      → IsBounded (awake s d)
  unfolding awake dlq_of
  awake-IsBounded s d e v b =
      let same : length d.queue ≡ length s.handler.logger.dlq = ap length e in
      record {
        logger = record {
          channel_le = b.logger.channel_le;
          batch_lt = b.logger.batch_lt;
          dlq_le = b.logger.dlq_le;
        };
        retry = record {
          bounded = b.logger.dlq_le;
          in_flight =
              InFlight-mono (length d.queue) (length s.handler.logger.dlq) d.phase (omega arith)
                v.in_flight;
          backed_off = v.backed_off;
        };
      }

channel-le :
    (c c' : List UsageEvent)
    → (c' ≡ c) ⊎ ((e : UsageEvent) × (c' ≡ c ++ e ∷ []) × (length c < channel_cap))
    → length c ≤ channel_cap
    → length c' ≤ channel_cap
channel-le c c' (inl e) h = rw e h
channel-le c c' (inr (x, e, k)) h = rw e (omega (arith, length-append c (x ∷ [])))

snapshot : (n : ℕ) (p q : Phase) → p ≡ q → InFlight n p → InFlight n q
snapshot n p q e h = rw e at h

module _ {W : Type 0} ⦃be : Backend W⦄ where
  length-flush_rows :
      (batch : List UsageEvent) (s : State W) → length (flush_rows batch s).0 ≤ length batch
  unfolding flush_rows
  length-flush_rows [] s = omega arith
  length-flush_rows (e ∷ batch) s =
      let (done, s₁) = write_usage_event e s in ground (arith, length-flush_rows batch s₁)

  retried-IsBounded :
      (s : Server W) (p : Phase) → s.phase ≡ p → IsBounded s → IsBounded (retried s p)
  unfolding retried merged dlq_of cutoff
  retried-IsBounded s sleeping e b = b
  retried-IsBounded s (flushing batch) e b =
      let (failed, s') = flush_rows batch (budgets_of s.handler) in
      let in_flight : length batch ≤ length s.handler.logger.dlq =
        snapshot (length s.handler.logger.dlq) s.phase (flushing batch) e b.retry.in_flight in
      let fits =
        merge-bounded failed s.handler.logger.dlq (length batch)
          (length-flush_rows batch (budgets_of s.handler)) in_flight in
      record {
        logger = record {
          channel_le = b.logger.channel_le;
          batch_lt = b.logger.batch_lt;
          dlq_le = omega (arith, b.logger.dlq_le);
        };
        retry = record {
          bounded = omega (arith, b.logger.dlq_le);
          in_flight = tt;
          backed_off = next_attempt-le failed s.attempt;
        };
      }

module _ {W : Type 0} ⦃be : Backend W⦄ ⦃fl : FloatOps⦄ ⦃lib : UuidLib⦄ ⦃crypto : CryptoLib⦄
    ⦃http : HttpLib W⦄ ⦃json : JsonLib⦄ ⦃rj : RequestJson⦄ where
  logged-IsBounded :
      (s : Server W) (h : Handler W)
      → Logs s.handler h
      → IsBounded s
      → IsBounded (record s { handler = h })
  unfolding with_logger dlq_of
  logged-IsBounded s h l b =
      let same : length h.logger.dlq ≡ length s.handler.logger.dlq = ap length l.dlq in
      let bounded =
        grown-IsBounded s h.logger (omega arith)
          (record {
            channel_le = channel-le s.handler.logger.ch h.logger.ch l.channel b.logger.channel_le;
            batch_lt = rw l.batch b.logger.batch_lt;
            dlq_le = omega (arith, b.logger.dlq_le);
          })
          b in
      record { logger = bounded.logger; retry = bounded.retry }

  step-IsBounded :
      (enc_key : Bytes) (e : Event W) (s : Server W) → IsBounded s → IsBounded (step enc_key e s).1
  unfolding step answered receive airelay.Proxy.Logger.step dlq_of
  step-IsBounded enc_key (asks r body) s b =
      logged-IsBounded s _ (serve_http-Logs enc_key r body s.handler) b
  step-IsBounded enc_key asks_health s b = b
  step-IsBounded enc_key receives s b =
      let l = s.handler.logger in
      grown-IsBounded s (receive l) (receive-grows l b.logger.dlq_le)
        (LoggerBounds.step-IsValid l Action.receives b.logger) b
  step-IsBounded enc_key ticks s b =
      let l = s.handler.logger in
      grown-IsBounded s (flush l) (flush-grows l b.logger.dlq_le)
        (LoggerBounds.step-IsValid l Action.ticks b.logger) b
  step-IsBounded enc_key awakes s b =
      awake-IsBounded s (Dlq.step (dlq_of s) wakes) (queue-wakes (dlq_of s))
        (DlqBounds.step-IsValid (dlq_of s) wakes b.retry) b
  step-IsBounded enc_key merges s b = retried-IsBounded s s.phase refl b
  step-IsBounded enc_key (outside f) s b = record {
    logger = record {
      channel_le = b.logger.channel_le;
      batch_lt = b.logger.batch_lt;
      dlq_le = b.logger.dlq_le;
    };
    retry = b.retry;
  }

  run-IsBounded :
      (enc_key : Bytes) (events : List (Event W)) (s : Server W)
      → IsBounded s
      → IsBounded (run enc_key events s).1
  unfolding run
  run-IsBounded enc_key [] s b = b
  run-IsBounded enc_key (e ∷ rest) s b =
      run-IsBounded enc_key rest (step enc_key e s).1 (step-IsBounded enc_key e s b)

  -- From its start, over any sequence of requests, rounds of the logger and of the retry goroutine,
  -- and changes outside, the service holds at most 50,000 events in the channel, under 100 in the
  -- batch and 50,000 in the dead letter queue; a snapshot that is being retried is no longer than the
  -- queue, and the number of the attempt is in the table of backoffs.
  pub new_server-IsBounded :
      (enc_key : Bytes) (events : List (Event W)) (w : W)
      → IsBounded (run enc_key events (new_server w)).1
  unfolding new_server new_handler new_logger new_dlq dlq_of
  new_server-IsBounded enc_key events w = run-IsBounded enc_key events (new_server w) (record {
    logger = record { channel_le = omega arith; batch_lt = omega arith; dlq_le = omega arith };
    retry = record { bounded = omega arith; in_flight = tt; backed_off = omega arith };
  })
