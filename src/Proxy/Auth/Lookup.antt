-- ===== src/Proxy/Auth/Lookup.antt =====
-- The text that a resolved key is cached as.
use airelay.Base.{
  ◌^◌, ◌<◌, ◌≡◌, some, [], ◌∷◌, ◌++◌, Bytes, Lacks, split_n, split_n-append, ap, ◌∙◌,
}
use airelay.Uuid.{UuidLib}
use airelay.Encoding.Hex.{IsBytes, hex_encode, hex_decode-hex_encode}
use airelay.Proxy.Auth.{KeyLookup, encode_key_lookup, parse_key_lookup}

-- A lookup that `resolveFromDB` can give: ids of 128 bits, a provider with no bar in it, and a
-- plain key of bytes.
pub record IsLookup (l : KeyLookup) : Type 0 where
  pub api_key_id_fits : l.api_key_id < 2 ^ 128
  pub project_id_fits : l.project_id < 2 ^ 128
  pub provider_plain : Lacks b'|' l.provider
  pub key_bytes : IsBytes l.plain_key

module _ ⦃lib : UuidLib⦄ where
  split-encode :
      (a b c d : Bytes)
      → Lacks b'|' a
      → Lacks b'|' b
      → Lacks b'|' c
      → split_n 4 b'|' (a ++ b'|' ∷ (b ++ b'|' ∷ (c ++ b'|' ∷ d))) ≡ a ∷ b ∷ c ∷ d ∷ []
  split-encode a b c d p q r =
      split_n-append 2 b'|' a _ p
      ∙ ap (◌∷◌ a) (split_n-append 1 b'|' b _ q ∙ ap (◌∷◌ b) (split_n-append 0 b'|' c d r))

  -- For a lookup that `resolveFromDB` can give, what is read from the cache is what was written there,
  -- whatever bytes the provider's key has.
  pub parse-encode : (l : KeyLookup) → IsLookup l → parse_key_lookup (encode_key_lookup l) ≡ some l
  unfolding parse_key_lookup encode_key_lookup
  parse-encode l h = rw (
    split-encode (lib.to_string l.api_key_id) (lib.to_string l.project_id) l.provider
        (hex_encode l.plain_key) (lib.to_string-Lacks_bar _) (lib.to_string-Lacks_bar _)
        h.provider_plain,
    lib.parse-to_string l.api_key_id h.api_key_id_fits,
    lib.parse-to_string l.project_id h.project_id_fits,
    hex_decode-hex_encode l.plain_key h.key_bytes,
  )
