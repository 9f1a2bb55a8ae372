-- ===== src/Proxy/Serve/Routes.antt =====
-- From the path and the key of a request to its project.
use mathlib.Core.Option.{some-injective}
use airelay.Base.{
  ℕ, ◌≡◌, ◌≢◌, refl, sym, ap, ◌∙◌, ◌⊎◌, inl, inr, Bool, true, false, ◌||◌, none, some, [], ◌∷◌,
  ◌++◌, Bytes, codes, has_prefix, trim_prefix, bytes_eq, bytes_eq_iff, cut, cut_sound, Bool-cases,
  Option-cases,
}
use airelay.Float.{FloatOps}
use airelay.Uuid.{UuidLib}
use airelay.Encrypt.{CryptoLib}
use airelay.Models.{AiProvider, provider_openai, provider_anthropic, provider_google}
use airelay.Tokens.{JsonLib}
use airelay.Proxy.Backend.{Backend}
use airelay.Proxy.Auth.{KeyLookup, key_prefix, resolve}
use airelay.Proxy.Forward.{Request, Reply, HttpLib}
use airelay.Proxy.Handler.{
  Handler, Body, RequestJson, slug_to_provider, split_path, two_parts, is_blank, bearer_key,
  write_json, world_of, with_world,
}
use airelay.Proxy.Serve.{serve_http, serve_checked, serve_path, serve_provider, serve_resolved}

or_true : (b : Bool) → (b || true) ≡ true
or_true true = refl
or_true false = refl

is_blank-prefix : (key : Bytes) → has_prefix key key_prefix ≡ true → is_blank key ≡ false
unfolding is_blank
is_blank-prefix [] e = cc
is_blank-prefix (_ ∷ _) e = refl

-- The name of a provider in a path.
abbrev pub Names : Bytes → AiProvider → Type 0
Names slug p =
    ((slug ≡ codes "openai") × (p ≡ provider_openai))
    ⊎ ((slug ≡ codes "anthropic") × (p ≡ provider_anthropic))
    ⊎ ((slug ≡ codes "google") × (p ≡ provider_google))

-- A path that leads to a provider: its name, a slash and a rest, behind `/proxy/`.
abbrev pub LeadsTo : Bytes → AiProvider → Bytes → Type 0
LeadsTo path p rest =
    (slug : Bytes) × Names slug p
    × (trim_prefix path (codes "/proxy/") ≡ slug ++ b'/' ∷ rest)
    × (rest ≢ [])

slug_to_provider-Names :
    (slug : Bytes) (p : AiProvider) → slug_to_provider slug ≡ some p → Names slug p
unfolding slug_to_provider
slug_to_provider-Names slug p e = elim (Bool-cases (bytes_eq slug (codes "openai"))) [
  | inl a ↦ let x = rw a at e in inl ((bytes_eq_iff _ _).0 a, some-injective _ _ (sym x))
  | inr a ↦ elim (Bool-cases (bytes_eq slug (codes "anthropic"))) [
    | inl b ↦
        let x = rw (a, b) at e in inr (inl ((bytes_eq_iff _ _).0 b, some-injective _ _ (sym x)))
    | inr b ↦ elim (Bool-cases (bytes_eq slug (codes "google"))) [
      | inl c ↦
          let x = rw (a, b, c) at e in
          inr (inr ((bytes_eq_iff _ _).0 c, some-injective _ _ (sym x)))
      | inr c ↦ let x = rw (a, b, c) at e in cc
    ]
  ]
]

Names-slug_to_provider :
    (slug : Bytes) (p : AiProvider)
    → Names slug p
    → (slug_to_provider slug ≡ some p)
      × ((rest : Bytes) → cut b'/' (slug ++ b'/' ∷ rest) ≡ some (slug, rest))
unfolding slug_to_provider
Names-slug_to_provider slug p (inl (a, b)) = (rw (a, b) refl, λ rest. rw a refl)
Names-slug_to_provider slug p (inr (inl (a, b))) = (rw (a, b) refl, λ rest. rw a refl)
Names-slug_to_provider slug p (inr (inr (a, b))) = (rw (a, b) refl, λ rest. rw a refl)

-- What `split_path` makes of a path, from its first cut.
split_path-cut :
    (path slug : Bytes) (c : ℕ) (rest : Bytes)
    → cut b'/' (trim_prefix path (codes "/proxy/")) ≡ some (slug, c ∷ rest)
    → split_path path ≡ some (slug, b'/' ∷ c ∷ rest)
unfolding split_path two_parts
split_path-cut path slug c rest e = rw e refl

parts-text :
    (t slug suffix b a : Bytes)
    → t ≡ b ++ b'/' ∷ a
    → two_parts (b ∷ a ∷ []) ≡ some (slug, suffix)
    → (rest : Bytes) × (suffix ≡ b'/' ∷ rest) × (t ≡ slug ++ b'/' ∷ rest) × (rest ≢ [])
unfolding two_parts
parts-text t slug suffix b [] h e = cc
parts-text t slug suffix b (c ∷ rest) h e =
    let p : b ≡ slug = cc in
    let q : b'/' ∷ c ∷ rest ≡ suffix = cc in
    (c ∷ rest, sym q, h ∙ ap (λ x. x ++ b'/' ∷ c ∷ rest) p, λ x. cc)

-- A path that `split_path` takes is cut into what it gives.
split_path-text :
    (path slug suffix : Bytes)
    → split_path path ≡ some (slug, suffix)
    → (rest : Bytes) × (suffix ≡ b'/' ∷ rest)
      × (trim_prefix path (codes "/proxy/") ≡ slug ++ b'/' ∷ rest)
      × (rest ≢ [])
unfolding split_path two_parts
split_path-text path slug suffix e =
    elim (Option-cases (cut b'/' (trim_prefix path (codes "/proxy/")))) [
      | inl n ↦ let x = rw n at e in cc
      | inr ((b, a), f) ↦ parts-text _ slug suffix b a (cut_sound b'/' _ b a f) (rw f at e)
    ]

LeadsTo-split_path :
    (path : Bytes) (p : AiProvider) (rest slug : Bytes)
    → Names slug p
    → trim_prefix path (codes "/proxy/") ≡ slug ++ b'/' ∷ rest
    → rest ≢ []
    → split_path path ≡ some (slug, b'/' ∷ rest)
LeadsTo-split_path path p [] slug n e h = absurd (h refl)
LeadsTo-split_path path p (c ∷ rest) slug n e h =
    split_path-cut path slug c rest (rw e ((Names-slug_to_provider slug p n).1 (c ∷ rest)))

module _ {W : Type 0} ⦃be : Backend W⦄ ⦃fl : FloatOps⦄ ⦃lib : UuidLib⦄ ⦃crypto : CryptoLib⦄
    ⦃http : HttpLib W⦄ ⦃json : JsonLib⦄ ⦃rj : RequestJson⦄ where
  -- Behind a path that leads to a provider.
  abbrev pub Keyed :
      Bytes → Request → Body → AiProvider → Bytes → Handler W → Reply × Handler W → Type 0
  Keyed enc_key r body p rest h result =
      let (resolved, w) = resolve enc_key (bearer_key r) p (world_of h) in
      ((has_prefix (bearer_key r) key_prefix ≡ false)
        × (result.0.status ≡ some 401)
        × (result.1 ≡ h))
      ⊎ ((has_prefix (bearer_key r) key_prefix ≡ true)
          × (resolved ≡ none)
          × (result.0.status ≡ some 401)
          × (result.1 ≡ with_world h w))
      ⊎ ((has_prefix (bearer_key r) key_prefix ≡ true)
          × (l : KeyLookup) × (resolved ≡ some l)
          × (result ≡ serve_checked r body l p (b'/' ∷ rest) (with_world h w)))

  serve_provider-Keyed :
      (enc_key : Bytes) (r : Request) (body : Body) (slug : Bytes) (p : AiProvider) (rest : Bytes)
      (h : Handler W)
      → Keyed enc_key r body p rest h (serve_provider enc_key r body slug (some p) (b'/' ∷ rest) h)
  unfolding serve_provider serve_resolved write_json
  serve_provider-Keyed enc_key r body slug p rest h =
      let (resolved, w) = resolve enc_key (bearer_key r) p (world_of h) in
      elim (Bool-cases (has_prefix (bearer_key r) key_prefix)) [
        | inr k ↦ inl (k, rw (k, or_true) refl, rw (k, or_true) refl)
        | inl k ↦
            (let b = is_blank-prefix (bearer_key r) k in
              elim (Option-cases resolved) [
                | inl e ↦ inr (
                    inl
                      (k, e, rw (b, k, e, serve_resolved) refl, rw (b, k, e, serve_resolved) refl))
                | inr (l, e) ↦ inr (inr (k, l, e, rw (b, k, e, serve_resolved) refl))
              ])
      ]

  -- Either the path behind `/proxy/` is not `openai/`, `anthropic/` or `google/` with a rest: then the
  -- reply is 400 and the handler as it was, with no call outside. Or it is: then a request with no
  -- `air_sk_` key gets 401 with the handler as it was; one whose key does not resolve for the
  -- provider gets 401 behind the lookup alone; and any other goes on, with what its key resolves
  -- to, that provider, and the rest of the path.
  pub serve_http_routes :
      (enc_key : Bytes) (r : Request) (body : Body) (h : Handler W)
      → let result = serve_http enc_key r body h in
        ((¬ ((p : AiProvider) × (rest : Bytes) × LeadsTo r.path p rest))
          × (result.0.status ≡ some 400)
          × (result.1 ≡ h))
        ⊎ ((p : AiProvider) × (rest : Bytes) × LeadsTo r.path p rest
            × Keyed enc_key r body p rest h result)
  unfolding serve_http serve_path serve_provider write_json
  serve_http_routes enc_key r body h = elim (Option-cases (split_path r.path)) [
    | inl e ↦ inl (
      λ (p, rest, (slug, n, t, k)). (let x = LeadsTo-split_path r.path p rest slug n t k in cc),
      rw (e, serve_path) refl,
      rw (e, serve_path) refl,
    )
    | inr ((slug, suffix), e) ↦ elim (Option-cases (slug_to_provider slug)) [
      | inl f ↦ inl (
        λ (p, rest, (named, n, t, k)).
            (let x = LeadsTo-split_path r.path p rest named n t k in
              let y = (Names-slug_to_provider named p n).0 in let z : named ≡ slug = cc in cc),
        rw (e, serve_path, f, serve_provider) refl,
        rw (e, serve_path, f, serve_provider) refl,
      )
      | inr (p, f) ↦
          let (rest, a, t, k) = split_path-text r.path slug suffix e in
          inr (
            p,
            rest,
            (slug, slug_to_provider-Names slug p f, t, k),
            rw (e, serve_path, f, a) (serve_provider-Keyed enc_key r body slug p rest h),
          )
    ]
  ]
