-- ===== src/Proxy/Serve/Logging.antt =====
-- What happens behind a forwarded request: the usage event, and its way to the database.
use airelay.Base.{
  ◌≡◌, refl, ◌⊎◌, inl, inr, ◌↔◌, Bool, true, false, Option, none, some, Bytes, has_prefix, codes,
  Bool-cases, Option-cases, arith,
}
use airelay.Float.{FloatOps}
use airelay.Uuid.{UuidLib}
use airelay.Encrypt.{CryptoLib}
use airelay.Models.{AiProvider}
use airelay.Tokens.{JsonLib}
use airelay.Proxy.Event.{UsageEvent}
use airelay.Proxy.Backend.{Backend}
use airelay.Proxy.Auth.{KeyLookup}
use airelay.Proxy.Budgets.{State}
use airelay.Proxy.Logger.{record_event_spend}
use airelay.Proxy.Forward.{
  Request, Outgoing, Response, Reply, silent, ForwardResult, HttpLib, provider_url, upstream_url,
  upstream_header, x_airelay_meta, forward, relay, relayed, get_header,
}
use airelay.Proxy.Handler.{
  Handler, RequestJson, extract_model, parse_metadata, world_of, with_world,
}
use airelay.Proxy.Serve.{serve_body, finish, log_event, count_usage, base_event}

module _ ⦃json : JsonLib⦄ where
  -- What the client gets of a response that is not a stream: all of it, and no counts.
  abbrev pub whole : Response → Reply
  whole resp = record { status = some resp.status; header = resp.header; body = resp.body }

  relay-whole :
      (provider : AiProvider) (resp : Response)
      → has_prefix (get_header resp.header (codes "Content-Type")) (codes "text/event-stream")
        ≡ false
      → relay provider resp ≡ (whole resp, (none, 0))
  unfolding relay
  relay-whole provider resp e = rw e refl

  status-relay :
      (provider : AiProvider) (resp : Response) → (relay provider resp).0.status ≡ some resp.status
  unfolding relay
  status-relay provider resp = ground arith

module _ {W : Type 0} ⦃be : Backend W⦄ ⦃fl : FloatOps⦄ ⦃lib : UuidLib⦄ ⦃crypto : CryptoLib⦄
    ⦃http : HttpLib W⦄ ⦃json : JsonLib⦄ ⦃rj : RequestJson⦄ where
  -- Nothing is written to the client exactly where the upstream request cannot be built or is not
  -- answered; then no status, no header and no body is written, no event is logged, and of the handler
  -- only the world has moved on. Every answer of the provider is given a status.
  pub serve_silent_iff :
      (r : Request) (l : KeyLookup) (provider : AiProvider) (suffix : Bytes) (down : Bool)
      (body : Bytes) (h : Handler W)
      → let url = upstream_url (provider_url provider) suffix r.raw_query in
        let (start, w₁) = be.now (world_of h) in
        let (answer, w₂) =
          http.do_request
            (record {
              method = r.method;
              url = url;
              header = upstream_header provider l.plain_key r.header;
              body = body;
            })
            w₁ in
        let result = serve_body r l provider suffix down body h in
        (result.0.status ≡ none) ↔ (
          ((http.valid_request r.method url ≡ false) × (result ≡ (silent, with_world h w₁)))
          ⊎ ((http.valid_request r.method url ≡ true)
              × (answer ≡ none)
              × (result ≡ (silent, with_world h w₂))))
  unfolding serve_body forward finish
  serve_silent_iff r l provider suffix down body h =
      let url = upstream_url (provider_url provider) suffix r.raw_query in
      let out : Outgoing = record {
        method = r.method;
        url = url;
        header = upstream_header provider l.plain_key r.header;
        body = body;
      } in
      elim (Bool-cases (http.valid_request r.method url)) [
        | inr bad ↦ rw bad (λ _. inl (refl, refl), λ _. refl)
        | inl good ↦ elim (Option-cases (http.do_request out (be.now (world_of h)).1).0) [
          | inl e ↦ rw (good, e, relayed) (λ _. inr (refl, refl, refl), λ _. refl)
          | inr (resp, e) ↦
              rw (good, e, relayed)
                (
                  λ n. (let given = status-relay provider resp in cc),
                  λ c. elim c [ inl x ↦ cc | inr x ↦ cc ],
                )
        ]
      ]

  -- The reply is given and an event is logged, which has no counts and, when its spend is recorded,
  -- leaves every counter as it was.
  abbrev pub Uncounted : Reply × Handler W → Bool → Reply → Handler W → Type 0
  Uncounted result down reply h =
      (e : UsageEvent) × (result ≡ (reply, log_event down e h))
      × (e.prompt_tokens ≡ 0)
      × (e.completion_tokens ≡ 0)
      × ((s : State W) → record_event_spend e s ≡ (tt, s))

  finish-Uncounted :
      (l : KeyLookup) (provider : AiProvider) (model : Bytes) (metadata : Option Bytes)
      (down : Bool) (f : ForwardResult) (reply : Reply) (h : Handler W)
      → f.usage ≡ none
      → Uncounted (finish l provider model metadata down (some f, reply) h) down reply h
  unfolding finish count_usage base_event record_event_spend
  finish-Uncounted l provider model metadata down f reply h e =
      (base_event l provider model metadata down f, rw e refl, refl, refl, λ s. refl)

  -- A response that is not a stream goes to the client whole, whatever counts its body states; the
  -- logged event has none, and the spend that is recorded for it leaves every counter as it was.
  pub serve_whole-Uncounted :
      (r : Request) (l : KeyLookup) (provider : AiProvider) (suffix : Bytes) (down : Bool)
      (body : Bytes) (resp : Response) (h : Handler W)
      → let url = upstream_url (provider_url provider) suffix r.raw_query in
        let (start, w₁) = be.now (world_of h) in
        let (answer, w₂) =
          http.do_request
            (record {
              method = r.method;
              url = url;
              header = upstream_header provider l.plain_key r.header;
              body = body;
            })
            w₁ in
        let (end, w₃) = be.now w₂ in
        http.valid_request r.method url ≡ true
        → answer ≡ some resp
        → has_prefix (get_header resp.header (codes "Content-Type")) (codes "text/event-stream")
          ≡ false
        → Uncounted (serve_body r l provider suffix down body h) down (whole resp) (with_world h w₃)
  unfolding serve_body forward
  serve_whole-Uncounted r l provider suffix down body resp h valid answer plain =
      rw (valid, answer, relayed, relay-whole provider resp plain)
        (finish-Uncounted l provider (extract_model body)
          (parse_metadata (get_header r.header x_airelay_meta)) down _ (whole resp) _ refl)
