-- ===== src/Tests/Requests.antt =====
-- The theorems on the resolved keys and the served requests, at concrete inputs.
use airelay.Base.{
  ◌≡◌, refl, true, false, none, some, [], ◌∷◌, ◌++◌, Bytes, codes, arith, trim_space, bytes_ne, not,
  ◌⊎◌, ◌↔◌, Option,
}
use airelay.Models.{AiProvider, provider_openai, provider_anthropic, provider_google}
use airelay.Proxy.Event.{UsageEvent}
use airelay.Proxy.Backend.{found}
use airelay.Proxy.Auth.{encode_key_lookup}
use airelay.Proxy.Budgets.{State, check_budgets, load_budgets, reload, get_spend, exceeded}
use airelay.Proxy.Logger.{record_event_spend}
use airelay.Tokens.{parse_openai_chunk}
use airelay.Proxy.Stream.Transparent.{unlines, IsLine}
use airelay.Proxy.Stream.Counts.{last_found}
use airelay.Proxy.Forward.{
  Reply, silent, Header, Response, HttpLib, forward, upstream_header, authorization, x_api_key,
  x_airelay_meta, anthropic_version,
}
use airelay.Proxy.Forward.Headers.{AgreeElsewhere, forward_credentials}
use airelay.Proxy.Budgets.Check.{IsOverLimit}
use airelay.Proxy.Handler.{Handler, read, extract_model, with_budgets, with_world}
use airelay.Proxy.Serve.{serve_http, serve_checked, serve_read, serve_body, log_event}
use airelay.Proxy.Serve.Guards.{serve_checked_decides}
use airelay.Proxy.Serve.Routes.{LeadsTo, Keyed, serve_http_routes}
use airelay.Proxy.Serve.Logging.{serve_silent_iff, serve_whole-Uncounted, whole}
use airelay.Proxy.Serve.Streams.{Counted, serve_stream-Counted}
use airelay.Tests.{
  project, World, quiet, spent, fresh, handler_of, chat, answer, answering, silent_provider,
  toy_backend, toy_float, toy_uuid, toy_crypto, toy_json, toy_request_json, letters,
}
use airelay.Tests.Keys.{lookup}

abbrev enc_key : Bytes
enc_key = letters 16

abbrev inbound : Bytes
inbound = codes "air_sk_1"

-- Redis has the lookup under every key.
abbrev cached : World
cached = record quiet { texts = λ k. found (encode_key_lookup lookup) }

spent_blocked : (check_budgets project (fresh spent)).0.blocked ≡ true
unfolding check_budgets load_budgets get_spend exceeded reload
spent_blocked = refl

abbrev served : Reply × Handler World
served = serve_http ⦃http = answering⦄ enc_key chat (read (codes "{}")) (handler_of quiet)

serve_http_routes_example :
    ((¬ ((p : AiProvider) × (rest : Bytes) × LeadsTo chat.path p rest))
      × (served.0.status ≡ some 400)
      × (served.1 ≡ handler_of quiet))
    ⊎ ((p : AiProvider) × (rest : Bytes) × LeadsTo chat.path p rest
        × Keyed ⦃http = answering⦄ enc_key chat
            (read (codes "{}"))
            p
            rest
            (handler_of quiet)
            served)
serve_http_routes_example =
    serve_http_routes ⦃http = answering⦄ enc_key chat (read (codes "{}")) (handler_of quiet)

serve_checked_decides_example :
    let (budget, s) = check_budgets project (fresh spent) in
    let (reply, h') =
      serve_checked ⦃http = answering⦄ chat
        (read (codes "{}"))
        lookup
        provider_openai
        (codes "/v1")
        (handler_of spent) in
    (IsOverLimit project (fresh spent)
      × (reply.status ≡ some 429)
      × (reply.body ≡ toy_request_json.error_body (codes "budget exceeded: " ++ budget.reason))
      × (h' ≡ with_budgets (handler_of spent) s)
      × (serve_checked ⦃http = silent_provider⦄ chat
            (read (codes "{}"))
            lookup
            provider_openai
            (codes "/v1")
            (handler_of spent)
          ≡ (reply, h')))
    ⊎ ((¬ IsOverLimit project (fresh spent))
        × ((reply, h')
            ≡ serve_read ⦃http = answering⦄ chat lookup provider_openai
                (codes "/v1")
                (not (toy_backend.redis_ping spent).0)
                (read (codes "{}"))
                (with_budgets (handler_of spent) s)))
serve_checked_decides_example =
    serve_checked_decides ⦃http = answering⦄ chat (read (codes "{}")) lookup provider_openai
      (codes "/v1") silent_provider (handler_of spent)

abbrev unanswered : Option Response
unanswered = none

abbrev refused : Reply × Handler World
refused =
    serve_body ⦃http = silent_provider⦄ chat lookup provider_openai (codes "/v1") false (codes "{}")
      (handler_of quiet)

serve_silent_iff_example : (refused.0.status ≡ none) ↔ (
    ((true ≡ false) × (refused ≡ (silent, with_world (handler_of quiet) quiet)))
    ⊎ ((true ≡ true)
        × (unanswered ≡ none)
        × (refused ≡ (silent, with_world (handler_of quiet) quiet))))
serve_silent_iff_example =
    serve_silent_iff ⦃http = silent_provider⦄ chat lookup provider_openai (codes "/v1") false
      (codes "{}") (handler_of quiet)

-- The client without its key.
abbrev no_headers : Header
no_headers k = []

no_headers-AgreeElsewhere : AgreeElsewhere chat.header no_headers
no_headers-AgreeElsewhere name a b c = let e = bytes_ne name authorization a in rw e refl

forward_credentials_example :
    (forward ⦃http = answering⦄
        (record chat { header = no_headers })
        (codes "{}")
        (codes "https://api.openai.com")
        (codes "k")
        provider_openai
        (codes "/v1")
        quiet
      ≡ forward ⦃http = answering⦄ chat
          (codes "{}")
          (codes "https://api.openai.com")
          (codes "k")
          provider_openai
          (codes "/v1")
          quiet)
    × (upstream_header provider_openai (codes "k") no_headers
        ≡ upstream_header provider_openai (codes "k") chat.header)
    × (upstream_header provider_openai (codes "k") no_headers authorization
        ≡ (codes "Bearer " ++ codes "k") ∷ [])
    × (upstream_header provider_openai (codes "k") no_headers x_api_key ≡ [])
    × (upstream_header provider_openai (codes "k") no_headers x_airelay_meta ≡ [])
    × (upstream_header provider_google (codes "k") no_headers authorization
        ≡ (codes "Bearer " ++ codes "k") ∷ [])
    × (upstream_header provider_google (codes "k") no_headers x_api_key ≡ [])
    × (upstream_header provider_google (codes "k") no_headers x_airelay_meta ≡ [])
    × (upstream_header provider_anthropic (codes "k") no_headers x_api_key ≡ codes "k" ∷ [])
    × (upstream_header provider_anthropic (codes "k") no_headers authorization ≡ [])
    × (upstream_header provider_anthropic (codes "k") no_headers x_airelay_meta ≡ [])
    × (upstream_header provider_anthropic (codes "k") no_headers anthropic_version
        ≡ codes "2023-06-01" ∷ [])
forward_credentials_example =
    forward_credentials ⦃http = answering⦄ chat no_headers (codes "{}")
      (codes "https://api.openai.com") (codes "k") provider_openai (codes "/v1") quiet
      no_headers-AgreeElsewhere

serve_whole-Uncounted_example :
    (e : UsageEvent) × (serve_body ⦃http = answering⦄ chat lookup provider_openai
        (codes "/v1")
        false
        (codes "{}")
        (handler_of quiet)
      ≡ (whole answer, log_event false e (with_world (handler_of quiet) quiet)))
    × (e.prompt_tokens ≡ 0)
    × (e.completion_tokens ≡ 0)
    × ((s : State World) → record_event_spend e s ≡ (tt, s))
serve_whole-Uncounted_example =
    serve_whole-Uncounted ⦃http = answering⦄ chat lookup provider_openai (codes "/v1") false
      (codes "{}") answer (handler_of quiet) refl refl refl

-- An event stream of one line, which carries counts.
abbrev event_line : Bytes
event_line = codes "data: {}"

event_line-IsLine : IsLine event_line
event_line-IsLine = record { one_line = ground arith; short = ground arith; bare = refl }

abbrev streamed : Response
streamed = record {
  status = 200;
  header = λ k. codes "text/event-stream" ∷ [];
  body = unlines (event_line ∷ []);
}

abbrev streaming : HttpLib World
streaming = record { valid_request = λ m u. true; do_request = λ o w. (some streamed, w) }

serve_stream-Counted_example :
    Counted
      (serve_body ⦃http = streaming⦄ chat lookup provider_openai
        (codes "/v1")
        false
        (codes "{}")
        (handler_of quiet))
      provider_openai
      (codes "gpt-4o")
      (record { prompt_tokens = 2; completion_tokens = 1 })
      false
      (whole streamed)
      (with_world (handler_of quiet) quiet)
unfolding last_found parse_openai_chunk trim_space unlines extract_model
serve_stream-Counted_example =
    serve_stream-Counted ⦃http = streaming⦄ chat lookup (codes "/v1") false (codes "{}") streamed
      (event_line ∷ []) (record { prompt_tokens = 2; completion_tokens = 1 }) (handler_of quiet)
      refl refl refl refl (event_line-IsLine, tt) refl
