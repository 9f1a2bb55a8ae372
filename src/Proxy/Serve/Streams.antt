-- ===== src/Proxy/Serve/Streams.antt =====
-- What happens with an event stream of OpenAI: the client's bytes, and the usage event.
use airelay.Base.{
  ◌≡◌, refl, ap, sym, ◌∙◌, Bool, true, Option, none, some, List, [], append-nil, Bytes, All,
  has_prefix, codes, ℕ,
}
use airelay.Float.{Float64, FloatOps}
use airelay.Uuid.{UuidLib}
use airelay.Encrypt.{CryptoLib}
use airelay.Models.{AiProvider, provider_openai, ModelPricing}
use airelay.Cost.{calculate}
use airelay.Tokens.{Usage, JsonLib, parse_openai_chunk}
use airelay.Proxy.Event.{UsageEvent}
use airelay.Proxy.Backend.{Backend}
use airelay.Proxy.Auth.{KeyLookup}
use airelay.Proxy.Stream.{scan_lines}
use airelay.Proxy.Stream.Transparent.{unlines, IsLine, scan_lines-unlines, stream_transparent}
use airelay.Proxy.Stream.Counts.{last_found, openai_usage}
use airelay.Proxy.Forward.{
  Request, Response, HttpLib, Reply, ForwardResult, provider_url, upstream_url, upstream_header,
  x_airelay_meta, forward, relay, relayed, get_header,
}
use airelay.Proxy.Handler.{
  Handler, RequestJson, extract_model, parse_metadata, world_of, with_world, lookup_pricing,
}
use airelay.Proxy.Serve.{serve_body, finish, log_event, count_usage, base_event, with_cost}
use airelay.Proxy.Serve.Logging.{whole}

-- The cost of counts at a price; without a price there is none.
abbrev pub cost_at : ⦃fl : FloatOps⦄ → ℕ → ℕ → Option ModelPricing → Option Float64
cost_at n m none = none
cost_at n m (some p) = some (calculate n m p)

scan_lines_of_lines : (ls : List Bytes) → All IsLine ls → scan_lines (unlines ls) ≡ ls
unfolding scan_lines
scan_lines_of_lines ls h =
    ap scan_lines (sym (append-nil (unlines ls))) ∙ scan_lines-unlines ls [] h ∙ append-nil ls

module _ ⦃json : JsonLib⦄ where
  relay-stream :
      (resp : Response) (ls : List Bytes)
      → has_prefix (get_header resp.header (codes "Content-Type")) (codes "text/event-stream")
        ≡ true
      → resp.body ≡ unlines ls
      → All IsLine ls
      → ((relay provider_openai resp).0 ≡ whole resp)
        × ((relay provider_openai resp).1.0 ≡ last_found parse_openai_chunk ls)
  unfolding relay
  relay-stream resp ls e b h =
      rw (e, b)
        (
          rw (stream_transparent provider_openai ls h) refl,
          openai_usage (unlines ls) ∙ ap (last_found parse_openai_chunk) (scan_lines_of_lines ls h),
        )

module _ ⦃fl : FloatOps⦄ where
  -- What `with_cost` makes of an event.
  abbrev HasCost : UsageEvent → Option ModelPricing → Type 0
  HasCost e price =
      ((with_cost e price).prompt_tokens ≡ e.prompt_tokens)
      × ((with_cost e price).completion_tokens ≡ e.completion_tokens)
      × ((with_cost e price).cost_usd ≡ cost_at e.prompt_tokens e.completion_tokens price)

  with_cost-HasCost :
      (e : UsageEvent) (price : Option ModelPricing) → e.cost_usd ≡ none → HasCost e price
  unfolding with_cost
  with_cost-HasCost e none h = (refl, refl, h)
  with_cost-HasCost e (some p) h = (refl, refl, refl)

module _ {W : Type 0} ⦃be : Backend W⦄ ⦃fl : FloatOps⦄ where
  -- The reply is given and an event is logged with these counts, and with the cost of them at the
  -- price that is looked up for the model.
  abbrev pub Counted :
      Reply × Handler W → AiProvider → Bytes → Usage → Bool → Reply → Handler W → Type 0
  Counted result provider model u down reply h =
      let (price, h') = lookup_pricing provider model h in
      (e : UsageEvent) × (result ≡ (reply, log_event down e h'))
      × (e.prompt_tokens ≡ u.prompt_tokens)
      × (e.completion_tokens ≡ u.completion_tokens)
      × (e.cost_usd ≡ cost_at u.prompt_tokens u.completion_tokens price)

module _ {W : Type 0} ⦃be : Backend W⦄ ⦃fl : FloatOps⦄ ⦃lib : UuidLib⦄ ⦃crypto : CryptoLib⦄
    ⦃http : HttpLib W⦄ ⦃json : JsonLib⦄ ⦃rj : RequestJson⦄ where
  finish-Counted :
      (l : KeyLookup) (provider : AiProvider) (model : Bytes) (metadata : Option Bytes)
      (down : Bool) (f : ForwardResult) (reply : Reply) (u : Usage) (h : Handler W)
      → f.usage ≡ some u
      → Counted
          (finish l provider model metadata down (some f, reply) h)
          provider
          model
          u
          down
          reply
          h
  unfolding finish count_usage base_event
  finish-Counted l provider model metadata down f reply u h e =
      let base = record (base_event l provider model metadata down f) {
        prompt_tokens = u.prompt_tokens;
        completion_tokens = u.completion_tokens;
      } in
      let price = (lookup_pricing provider model h).0 in
      let (prompt, completion, cost) = with_cost-HasCost base price refl in
      (with_cost base price, rw e refl, prompt, completion, cost)

  -- An event stream of OpenAI, whose lines fit in the scanner's buffer and do not end in a carriage
  -- return, reaches the client byte for byte. When its parser finds usage in a line, the logged event
  -- has the counts of the last such line, and their cost at the price that is looked up.
  pub serve_stream-Counted :
      (r : Request) (l : KeyLookup) (suffix : Bytes) (down : Bool) (body : Bytes) (resp : Response)
      (ls : List Bytes) (u : Usage) (h : Handler W)
      → let url = upstream_url (provider_url provider_openai) suffix r.raw_query in
        let (start, w₁) = be.now (world_of h) in
        let (answer, w₂) =
          http.do_request
            (record {
              method = r.method;
              url = url;
              header = upstream_header provider_openai l.plain_key r.header;
              body = body;
            })
            w₁ in
        let (end, w₃) = be.now w₂ in
        http.valid_request r.method url ≡ true
        → answer ≡ some resp
        → has_prefix (get_header resp.header (codes "Content-Type")) (codes "text/event-stream")
          ≡ true
        → resp.body ≡ unlines ls
        → All IsLine ls
        → last_found parse_openai_chunk ls ≡ some u
        → Counted
            (serve_body r l provider_openai suffix down body h)
            provider_openai
            (extract_model body)
            u
            down
            (whole resp)
            (with_world h w₃)
  unfolding serve_body forward
  serve_stream-Counted r l suffix down body resp ls u h valid answer stream b lines found =
      let relayed_stream = relay-stream resp ls stream b lines in
      rw (valid, answer, relayed, relayed_stream.0)
        (finish-Counted l provider_openai (extract_model body)
          (parse_metadata (get_header r.header x_airelay_meta)) down _ (whole resp) u _
          (relayed_stream.1 ∙ found))
