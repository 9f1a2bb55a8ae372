-- ===== src/Proxy/Forward.antt =====
-- proxy/forward.go: the request to the provider and the reply to the client. A header is a map from
-- canonical names to values, so a function; the HTTP client is a parameter.
pub mod Headers
use airelay.Base.{
  ℕ, ◌+◌, ◌-◌, ◌/◌, Bool, true, false, ◌||◌, Option, none, some, List, [], ◌∷◌, ◌++◌, Bytes, codes,
  bytes_eq, has_prefix, if◌then◌else◌,
}
use airelay.Time.{Time, instant}
use airelay.Models.{AiProvider, provider_openai, provider_anthropic, provider_google}
use airelay.Tokens.{Usage, JsonLib}
use airelay.Proxy.Backend.{Backend}
use airelay.Proxy.Stream.{Stream, stream_sse}

abbrev pub Header : Type 0
Header = Bytes → List Bytes

abbrev pub no_header : Header
no_header _ = []

-- h.Set(name, value)
abbrev pub set_header : Bytes → Bytes → Header → Header
set_header name value h = λ k. if bytes_eq k name then value ∷ [] else h k

pub record Request : Type 0 where
  pub method : Bytes
  pub path : Bytes
  pub raw_query : Bytes
  pub header : Header

-- The request to a provider.
pub record Outgoing : Type 0 where
  pub method : Bytes
  pub url : Bytes
  pub header : Header
  pub body : Bytes

pub record Response : Type 0 where
  pub status : ℕ
  pub header : Header
  pub body : Bytes

-- http.NewRequestWithContext, which refuses a bad method or URL, and proxyHTTPClient.Do.
pub record HttpLib (W : Type 0) : Type 0 where
  pub valid_request : Bytes → Bytes → Bool
  pub do_request : Outgoing → W → Option Response × W

-- What a handler has written to its client. With no call of WriteHeader, net/http answers 200.
pub record Reply : Type 0 where
  pub status : Option ℕ
  pub header : Header
  pub body : Bytes

abbrev pub silent : Reply
silent = record { status = none; header = no_header; body = [] }

pub record ForwardResult : Type 0 where
  pub status_code : ℕ
  pub usage : Option Usage
  pub duration_ms : ℕ
  pub anthropic_input_tokens : ℕ

-- ProviderURLs[provider]; a missing key gives the empty text.
unfoldable pub provider_url : AiProvider → Bytes
provider_url provider =
    if bytes_eq provider provider_openai
    then codes "https://api.openai.com"
    else if bytes_eq provider provider_anthropic
    then codes "https://api.anthropic.com"
    else if bytes_eq provider provider_google
    then codes "https://generativelanguage.googleapis.com"
    else []

abbrev pub authorization : Bytes
authorization = codes "Authorization"

abbrev pub x_api_key : Bytes
x_api_key = codes "X-Api-Key"

abbrev pub x_airelay_meta : Bytes
x_airelay_meta = codes "X-Airelay-Meta"

abbrev pub anthropic_version : Bytes
anthropic_version = codes "Anthropic-Version"

abbrev with_query : Bytes → Bytes → Bytes
with_query url [] = url
with_query url (c ∷ query) = url ++ b'?' ∷ c ∷ query

unfoldable pub upstream_url : Bytes → Bytes → Bytes → Bytes
upstream_url base suffix query = with_query (base ++ suffix) query

-- The loop over the client's headers.
copied : Header → Header
copied h k =
    if bytes_eq k authorization || (bytes_eq k x_api_key || bytes_eq k x_airelay_meta)
    then []
    else h k

-- The `switch` on the provider. Header.Set writes the canonical name.
unfoldable pub upstream_header : AiProvider → Bytes → Header → Header
unfolding copied
upstream_header provider key h =
    if bytes_eq provider provider_openai || bytes_eq provider provider_google
    then set_header authorization (codes "Bearer " ++ key) (copied h)
    else if bytes_eq provider provider_anthropic
    then set_header anthropic_version (codes "2023-06-01") (set_header x_api_key key (copied h))
    else copied h

-- h.Get(name)
abbrev pub get_header : Header → Bytes → Bytes
get_header h name = elim (h name) [ [] ↦ [] | v ∷ _ ↦ v ]

module _ ⦃json : JsonLib⦄ where
  -- What is written to the client, and the counts: `streamSSE` or io.Copy.
  unfoldable pub relay : AiProvider → Response → Reply × (Option Usage × ℕ)
  relay provider resp =
      if has_prefix (get_header resp.header (codes "Content-Type")) (codes "text/event-stream")
      then (let s = stream_sse provider resp.body in
          (
            record { status = some resp.status; header = resp.header; body = s.out },
            (s.last_usage, s.anthropic_input),
          ))
      else (record { status = some resp.status; header = resp.header; body = resp.body }, (none, 0))

-- int(time.Since(start).Milliseconds()), of a clock that does not run back
millis_since : Time → Time → ℕ
millis_since start end = (instant end - instant start) / 1000000

module _ {W : Type 0} ⦃be : Backend W⦄ ⦃http : HttpLib W⦄ ⦃json : JsonLib⦄ where
  unfoldable pub relayed :
      Time → AiProvider → Option Response → W → (Option ForwardResult × Reply) × W
  unfolding millis_since
  relayed start provider none w = ((none, silent), w)
  relayed start provider (some resp) w =
      let (reply, (usage, input)) = relay provider resp in
      let (end, w') = be.now w in
      (
        (
          some (record {
            status_code = resp.status;
            usage = usage;
            duration_ms = millis_since start end;
            anthropic_input_tokens = input;
          }),
          reply,
        ),
        w',
      )

  -- `none` is an error; the reply is what the client has been sent then or else.
  unfoldable pub forward :
      Request → Bytes → Bytes → Bytes → AiProvider → Bytes → W → (Option ForwardResult × Reply) × W
  unfolding relayed
  forward r body base key provider suffix w =
      let (start, w₁) = be.now w in
      let url = upstream_url base suffix r.raw_query in
      if http.valid_request r.method url
      then (let (resp, w₂) =
            http.do_request
              (record {
                method = r.method;
                url = url;
                header = upstream_header provider key r.header;
                body = body;
              })
              w₁ in
          relayed start provider resp w₂)
      else ((none, silent), w₁)
