-- ===== src/Proxy/Forward/Headers.antt =====
-- Which headers go to the provider.
use airelay.Base.{
  ◌≡◌, ◌≢◌, refl, inl, inr, [], ◌∷◌, ◌++◌, Bytes, codes, bytes_eq, bytes_ne, bytes_apart, arith,
  ◌||◌, Bool-cases,
}
use airelay.Models.{AiProvider, provider_openai, provider_anthropic, provider_google}
use airelay.Tokens.{JsonLib}
use airelay.Proxy.Backend.{Backend}
use airelay.Proxy.Forward.{
  Header, Request, HttpLib, copied, forward, upstream_header, authorization, x_api_key,
  x_airelay_meta, anthropic_version,
}

-- Every other header reaches the provider with the values that the client sent.
pub upstream_header-other :
    (provider : AiProvider) (key : Bytes) (h : Header) (name : Bytes)
    → name ≢ authorization
    → name ≢ x_api_key
    → name ≢ x_airelay_meta
    → name ≢ anthropic_version
    → upstream_header provider key h name ≡ h name
unfolding upstream_header
upstream_header-other provider key h name a b c d =
    let a' = bytes_ne name authorization a in
    let b' = bytes_ne name x_api_key b in
    let c' = bytes_ne name x_airelay_meta c in
    let d' = bytes_ne name anthropic_version d in
    elim (Bool-cases (bytes_eq provider provider_openai || bytes_eq provider provider_google)) [
      | inl e ↦ rw (e, a', b', c')
      | inr e ↦ elim (Bool-cases (bytes_eq provider provider_anthropic)) [
        | inl f ↦ rw (e, f, d', b', a', c')
        | inr f ↦ rw (e, f, a', b', c')
      ]
    ]

-- Two sets of headers that agree but for the client's credentials and metadata.
abbrev pub AgreeElsewhere : Header → Header → Type 0
AgreeElsewhere h h' =
    (name : Bytes)
    → name ≢ authorization
    → name ≢ x_api_key
    → name ≢ x_airelay_meta
    → h' name ≡ h name

copied_same :
    (h h' : Header) → AgreeElsewhere h h' → (name : Bytes) → copied h' name ≡ copied h name
unfolding copied
copied_same h h' same name =
    elim (Bool-cases
      (bytes_eq name authorization || (bytes_eq name x_api_key || bytes_eq name x_airelay_meta))) [
        | inl e ↦ rw e refl
        | inr e ↦ rw e (
            same name (bytes_apart name authorization (ground arith))
              (bytes_apart name x_api_key (ground arith))
              (bytes_apart name x_airelay_meta (ground arith)))
      ]

module _ {W : Type 0} ⦃be : Backend W⦄ ⦃http : HttpLib W⦄ ⦃json : JsonLib⦄ where
  -- What the client sends as `Authorization`, `X-Api-Key` and `X-Airelay-Meta` reaches no provider, in
  -- no header: of two requests that differ in these alone, the headers of the upstream request and the
  -- whole exchange are the same. OpenAI and Google get the project's credential as a bearer token
  -- and no `X-Api-Key`, Anthropic gets it as its key with the version of the API and no
  -- `Authorization`.
  pub forward_credentials :
      (r : Request) (h' : Header) (body base key : Bytes) (provider : AiProvider) (suffix : Bytes)
      (w : W)
      → AgreeElsewhere r.header h'
      → (forward (record r { header = h' }) body base key provider suffix w
          ≡ forward r body base key provider suffix w)
        × (upstream_header provider key h' ≡ upstream_header provider key r.header)
        × (upstream_header provider_openai key h' authorization ≡ (codes "Bearer " ++ key) ∷ [])
        × (upstream_header provider_openai key h' x_api_key ≡ [])
        × (upstream_header provider_openai key h' x_airelay_meta ≡ [])
        × (upstream_header provider_google key h' authorization ≡ (codes "Bearer " ++ key) ∷ [])
        × (upstream_header provider_google key h' x_api_key ≡ [])
        × (upstream_header provider_google key h' x_airelay_meta ≡ [])
        × (upstream_header provider_anthropic key h' x_api_key ≡ key ∷ [])
        × (upstream_header provider_anthropic key h' authorization ≡ [])
        × (upstream_header provider_anthropic key h' x_airelay_meta ≡ [])
        × (upstream_header provider_anthropic key h' anthropic_version ≡ codes "2023-06-01" ∷ [])
  unfolding forward upstream_header
  forward_credentials r h' body base key provider suffix w same =
      let e : copied h' ≡ copied r.header = (λ i name. copied_same r.header h' same name i) in
      (rw e refl, rw e refl, refl, refl, refl, refl, refl, refl, refl, refl, refl, refl)
