-- ===== src/Proxy/Serve/Queues.antt =====
-- What a request does to the queues of the logger.
use airelay.Base.{
  ◌≡◌, refl, ◌⊎◌, inl, inr, Bool, true, false, not, ◌||◌, has_prefix, Option, none, some, [], ◌∷◌,
  ◌++◌, length, ap, ◌<◌, arith, Bytes, ltb, Bool-cases,
}
use airelay.Time.{instant}
use airelay.Float.{FloatOps}
use airelay.Uuid.{UuidLib}
use airelay.Encrypt.{CryptoLib}
use airelay.Models.{AiProvider}
use airelay.Tokens.{Usage, JsonLib}
use airelay.Proxy.Event.{UsageEvent}
use airelay.Proxy.Backend.{Backend}
use airelay.Proxy.Auth.{KeyLookup, key_prefix, resolve}
use airelay.Proxy.Budgets.{check_budgets}
use airelay.Proxy.Logger.{log, channel_cap}
use airelay.Proxy.Forward.{
  Request, Reply, ForwardResult, HttpLib, provider_url, forward, x_airelay_meta, get_header,
}
use airelay.Proxy.Handler.{
  Handler, Body, read, too_large, unreadable, RequestJson, CachedPricing, lookup_pricing,
  pricing_cached, query_pricing, store_pricing, slug_to_provider, split_path, bearer_key,
  budgets_of, with_budgets, world_of, with_world, extract_model, parse_metadata, is_blank,
}
use airelay.Proxy.Serve.{
  base_event, count_usage, log_event, finish, serve_body, serve_read, serve_checked, serve_resolved,
  serve_provider, serve_path, serve_http,
}

module _ {W : Type 0} where
  -- The three queues are as they were, or `Log` was called once.
  record Same (h h' : Handler W) : Type 0 where
    channel : h'.logger.ch ≡ h.logger.ch
    batch : h'.logger.batch ≡ h.logger.batch
    dlq : h'.logger.dlq ≡ h.logger.dlq

  pub record Logs (h h' : Handler W) : Type 0 where
    pub channel :
        (h'.logger.ch ≡ h.logger.ch)
        ⊎ ((e : UsageEvent) × (h'.logger.ch ≡ h.logger.ch ++ e ∷ [])
            × (length h.logger.ch < channel_cap))
    pub batch : h'.logger.batch ≡ h.logger.batch
    pub dlq : h'.logger.dlq ≡ h.logger.dlq

  same : (h : Handler W) → Same h h
  same h = record { channel = refl; batch = refl; dlq = refl }

  Same-Logs : (h h' : Handler W) → Same h h' → Logs h h'
  Same-Logs h h' s = record { channel = inl s.channel; batch = s.batch; dlq = s.dlq }

module _ {W : Type 0} ⦃be : Backend W⦄ where
  pricing_cached-Same :
      (provider model : Bytes) (c : Option CachedPricing) (h : Handler W)
      → Same h (pricing_cached provider model c h).1
  unfolding pricing_cached query_pricing store_pricing
  pricing_cached-Same provider model none h = record { channel = refl; batch = refl; dlq = refl }
  pricing_cached-Same provider model (some c) h =
      elim (Bool-cases (ltb (instant (be.now (world_of h)).0) c.expires_at)) [
        | inl e ↦ rw e (record { channel = refl; batch = refl; dlq = refl })
        | inr e ↦ rw e (record { channel = refl; batch = refl; dlq = refl })
      ]

module _ {W : Type 0} ⦃be : Backend W⦄ ⦃fl : FloatOps⦄ where
  count_usage-Same :
      (u : Option Usage) (e : UsageEvent) (h : Handler W) → Same h (count_usage u e h).1
  unfolding count_usage lookup_pricing
  count_usage-Same none e h = same h
  count_usage-Same (some u) e h = pricing_cached-Same e.provider e.model _ h

  log_event-Logs :
      (down : Bool) (e : UsageEvent) (h h' : Handler W) → Same h h' → Logs h (log_event down e h')
  unfolding log_event log
  log_event-Logs true e h h' s = record { channel = inl s.channel; batch = s.batch; dlq = s.dlq }
  log_event-Logs false e h h' s = elim (Bool-cases (ltb (length h'.logger.ch) channel_cap)) [
    | inl room ↦
        let fits : length h'.logger.ch < channel_cap = ground arith in
        rw room (record {
          channel = inr (e, ap (λ c. c ++ e ∷ []) s.channel, rw s.channel at fits);
          batch = s.batch;
          dlq = s.dlq;
        })
    | inr full ↦ rw full (record { channel = inl s.channel; batch = s.batch; dlq = s.dlq })
  ]

  finish-Logs :
      (l : KeyLookup) (provider : AiProvider) (model : Bytes) (metadata : Option Bytes)
      (down : Bool) (sent : Option ForwardResult × Reply) (h : Handler W)
      → Logs h (finish l provider model metadata down sent h).1
  unfolding finish
  finish-Logs l provider model metadata down (none, reply) h = Same-Logs h h (same h)
  finish-Logs l provider model metadata down (some f, reply) h =
      let (e, h') = count_usage f.usage (base_event l provider model metadata down f) h in
      log_event-Logs down e h h'
        (count_usage-Same f.usage (base_event l provider model metadata down f) h)

module _ {W : Type 0} ⦃be : Backend W⦄ ⦃fl : FloatOps⦄ ⦃lib : UuidLib⦄ ⦃crypto : CryptoLib⦄
    ⦃http : HttpLib W⦄ ⦃json : JsonLib⦄ ⦃rj : RequestJson⦄ where
  serve_read-Logs :
      (r : Request) (l : KeyLookup) (provider : AiProvider) (suffix : Bytes) (down : Bool)
      (body : Body) (h : Handler W)
      → Logs h (serve_read r l provider suffix down body h).1
  unfolding serve_read serve_body
  serve_read-Logs r l provider suffix down too_large h = Same-Logs h h (same h)
  serve_read-Logs r l provider suffix down unreadable h = Same-Logs h h (same h)
  serve_read-Logs r l provider suffix down (read body) h =
      let (sent, w) =
        forward r body (provider_url provider) l.plain_key provider suffix (world_of h) in
      let logged =
        finish-Logs l provider (extract_model body)
          (parse_metadata (get_header r.header x_airelay_meta)) down sent (with_world h w) in
      record { channel = logged.channel; batch = logged.batch; dlq = logged.dlq }

  serve_checked-Logs :
      (r : Request) (body : Body) (l : KeyLookup) (provider : AiProvider) (suffix : Bytes)
      (h : Handler W)
      → Logs h (serve_checked r body l provider suffix h).1
  unfolding serve_checked
  serve_checked-Logs r body l provider suffix h =
      let (budget, s) = check_budgets l.project_id (budgets_of h) in
      elim (Bool-cases budget.blocked) [
        | inl e ↦ rw e (record { channel = inl refl; batch = refl; dlq = refl })
        | inr e ↦
            let logged =
              serve_read-Logs r l provider suffix budget.redis_down body (with_budgets h s) in
            rw e (record { channel = logged.channel; batch = logged.batch; dlq = logged.dlq })
      ]

  serve_resolved-Logs :
      (r : Request) (body : Body) (provider : AiProvider) (suffix : Bytes) (l : Option KeyLookup)
      (h : Handler W)
      → Logs h (serve_resolved r body provider suffix l h).1
  unfolding serve_resolved
  serve_resolved-Logs r body provider suffix none h = Same-Logs h h (same h)
  serve_resolved-Logs r body provider suffix (some l) h =
      serve_checked-Logs r body l provider suffix h

  serve_provider-Logs :
      (enc_key : Bytes) (r : Request) (body : Body) (slug : Bytes) (p : Option AiProvider)
      (suffix : Bytes) (h : Handler W)
      → Logs h (serve_provider enc_key r body slug p suffix h).1
  unfolding serve_provider
  serve_provider-Logs enc_key r body slug none suffix h = Same-Logs h h (same h)
  serve_provider-Logs enc_key r body slug (some p) suffix h =
      elim (Bool-cases (is_blank (bearer_key r) || not (has_prefix (bearer_key r) key_prefix))) [
        | inl e ↦ rw e (Same-Logs h h (same h))
        | inr e ↦
            let (l, w) = resolve enc_key (bearer_key r) p (world_of h) in
            let logged = serve_resolved-Logs r body p suffix l (with_world h w) in
            rw e (record { channel = logged.channel; batch = logged.batch; dlq = logged.dlq })
      ]

  serve_path-Logs :
      (enc_key : Bytes) (r : Request) (body : Body) (p : Option (Bytes × Bytes)) (h : Handler W)
      → Logs h (serve_path enc_key r body p h).1
  unfolding serve_path
  serve_path-Logs enc_key r body none h = Same-Logs h h (same h)
  serve_path-Logs enc_key r body (some (slug, suffix)) h =
      serve_provider-Logs enc_key r body slug (slug_to_provider slug) suffix h

  -- A request leaves the batch and the dead letter queue alone, and adds at most one event to the
  -- channel, which had room for it.
  pub serve_http-Logs :
      (enc_key : Bytes) (r : Request) (body : Body) (h : Handler W)
      → Logs h (serve_http enc_key r body h).1
  unfolding serve_http
  serve_http-Logs enc_key r body h = serve_path-Logs enc_key r body (split_path r.path) h
