-- ===== src/Proxy/Auth/Resolve.antt =====
-- How a key is resolved: from the cache, and past it.
use airelay.Base.{
  ◌*◌, ◌≡◌, ◌≢◌, refl, ap, true, Option, none, some, ◌++◌, ◌∷◌, [], Bytes, length, length-append,
  drop, take-append-drop, length-take, has_prefix, has_prefix-append, arith,
}
use mathlib.Core.Option.{some-injective}
use airelay.Uuid.{UuidLib}
use airelay.Models.{AiProvider}
use airelay.Encoding.Hex.{hex_encode}
use airelay.Encrypt.{CryptoLib}
use airelay.Proxy.Backend.{Backend, Get, found, nil, failed}
use airelay.Proxy.Auth.{
  KeyLookup, encode_key_lookup, hash_key, generate_key, key_prefix, key_cache_ttl, cache_key,
  resolve, resolve_from_db, resolve_get, resolve_uncached, cache_lookup,
}
use airelay.Proxy.Auth.Lookup.{IsLookup, parse-encode}

module _ {W : Type 0} ⦃be : Backend W⦄ ⦃lib : UuidLib⦄ ⦃crypto : CryptoLib⦄ where
  -- While Redis holds the cached text of a lookup, the key resolves to that lookup by the one GET:
  -- neither Postgres nor the cipher is asked, so a key or a credential that is revoked meanwhile
  -- still resolves.
  pub resolve_hit :
      (enc_key inbound : Bytes) (provider : AiProvider) (l : KeyLookup) (w : W)
      → IsLookup l
      → let (val, w') = be.redis_get_text (cache_key inbound provider) w in
        val ≡ found (encode_key_lookup l) → resolve enc_key inbound provider w ≡ (some l, w')
  unfolding resolve
  resolve_hit enc_key inbound provider l w h e = rw (e, resolve_get, parse-encode l h)

  cache_lookup_lem :
      (key : Bytes) (o : Option KeyLookup) (w : W)
      → ((cache_lookup key o w).0 ≡ o)
        × ((x : KeyLookup)
            → o ≡ some x
            → (cache_lookup key o w).1
              ≡ be.redis_set_text key (encode_key_lookup x) key_cache_ttl w)
        × (o ≡ none → (cache_lookup key o w).1 ≡ w)
  unfolding cache_lookup
  cache_lookup_lem key none w = (refl, λ x e. cc, λ _. refl)
  cache_lookup_lem key (some l) w = (
    refl,
    λ x e.
        ap (λ y. be.redis_set_text key (encode_key_lookup y) key_cache_ttl w)
          (some-injective l x e),
    λ e. cc,
  )

  resolve_get-miss :
      (enc_key inbound : Bytes) (provider : AiProvider) (val : Get Bytes) (w : W)
      → ((t : Bytes) → val ≢ found t)
      → resolve_get enc_key inbound provider val w ≡ resolve_uncached enc_key inbound provider w
  unfolding resolve_get
  resolve_get-miss enc_key inbound provider (found t) w h = absurd (h t refl)
  resolve_get-miss enc_key inbound provider nil w h = refl
  resolve_get-miss enc_key inbound provider failed w h = refl

  -- Without an answer from the cache the result is that of Postgres under the key's hash; a lookup
  -- is then cached for five minutes, and an error is not cached.
  pub resolve_miss :
      (enc_key inbound : Bytes) (provider : AiProvider) (w : W)
      → let (val, w₁) = be.redis_get_text (cache_key inbound provider) w in
        let (l, w₂) = resolve_from_db enc_key (hash_key inbound) provider w₁ in
        let (result, w₃) = resolve enc_key inbound provider w in
        ((t : Bytes) → val ≢ found t)
        → (result ≡ l)
          × ((x : KeyLookup)
              → l ≡ some x
              → w₃
                ≡ be.redis_set_text
                    (cache_key inbound provider)
                    (encode_key_lookup x)
                    key_cache_ttl
                    w₂)
          × (l ≡ none → w₃ ≡ w₂)
  unfolding resolve resolve_uncached
  resolve_miss enc_key inbound provider w h =
      let (val, w₁) = be.redis_get_text (cache_key inbound provider) w in
      let (l, w₂) = resolve_from_db enc_key (hash_key inbound) provider w₁ in
      rw (resolve_get-miss enc_key inbound provider val w₁ h)
        (cache_lookup_lem (cache_key inbound provider) l w₂)

module _ ⦃crypto : CryptoLib⦄ where
  hex-length : (s : Bytes) → length (hex_encode s) ≡ 2 * length s
  unfolding hex_encode
  hex-length [] = omega arith
  hex-length (b ∷ s) = omega (arith, hex-length s)

  -- A generated key has the prefix that the proxy asks of a key, and 55 characters; the text for
  -- display is its first 16, and the stored hash is the one that `Resolve` computes from it.
  pub generate_key_lem :
      (random : Bytes)
      → length random ≡ 24
      → let (full, prefix, hash) = generate_key random in
        (has_prefix full key_prefix ≡ true)
        × (length full ≡ 55)
        × (length prefix ≡ 16)
        × (prefix ++ drop 16 full ≡ full)
        × (hash ≡ hash_key full)
  unfolding generate_key
  generate_key_lem random h =
      let full = key_prefix ++ hex_encode random in
      let l = length-append key_prefix (hex_encode random) in
      let m = hex-length random in
      let n = length-take 16 full in
      (
        has_prefix-append key_prefix (hex_encode random),
        omega arith,
        omega arith,
        take-append-drop 16 full,
        refl,
      )
