-- ===== src/Proxy/Auth.antt =====
-- proxy/auth.go: API keys, and their resolution to a project and a provider's credential through the
-- Redis cache and Postgres.
pub mod Lookup
pub mod Resolve
use airelay.Base.{
  ℕ, ◌*◌, Option, none, some, List, [], ◌∷◌, ◌++◌, Bytes, codes, take, split_n, length,
}
use airelay.Time.{minute}
use airelay.Uuid.{Uuid, UuidLib}
use airelay.Models.{AiProvider}
use airelay.Encoding.Hex.{hex_encode, hex_decode}
use airelay.Encrypt.{CryptoLib, Result, ok, err, decrypt}
use airelay.Proxy.Backend.{Backend, CredentialRow, Get, found, nil, failed}

abbrev pub key_prefix : Bytes
key_prefix = codes "air_sk_"

abbrev pub key_cache_ttl : ℕ
key_cache_ttl = 5 * minute

module _ ⦃crypto : CryptoLib⦄ where
  unfoldable pub hash_key : Bytes → Bytes
  hash_key key = hex_encode (crypto.sha256 key)

  -- The full key, its prefix for display and its hash, from 24 random bytes.
  unfoldable pub generate_key : Bytes → Bytes × Bytes × Bytes
  generate_key random =
      let full = key_prefix ++ hex_encode random in (full, take 16 full, hash_key full)

pub record KeyLookup : Type 0 where
  pub api_key_id : Uuid
  pub project_id : Uuid
  pub provider : AiProvider
  pub plain_key : Bytes

module _ ⦃lib : UuidLib⦄ where
  -- fmt.Sprintf("%s|%s|%s|%s", …)
  unfoldable pub encode_key_lookup : KeyLookup → Bytes
  encode_key_lookup l =
      lib.to_string l.api_key_id
      ++ b'|' ∷ (lib.to_string l.project_id ++ b'|' ∷ (l.provider ++ b'|' ∷ hex_encode l.plain_key))

  lookup_of : AiProvider → Option Uuid → Option Uuid → Option Bytes → Option KeyLookup
  lookup_of provider (some ak) (some p) (some plain) =
      some (record { api_key_id = ak; project_id = p; provider = provider; plain_key = plain })
  lookup_of _ _ _ _ = none

  lookup_of_parts : List Bytes → Option KeyLookup
  unfolding lookup_of
  lookup_of_parts (ak ∷ p ∷ provider ∷ key ∷ []) =
      lookup_of provider (lib.parse ak) (lib.parse p) (hex_decode key)
  lookup_of_parts _ = none

  -- `none` is each of its errors.
  unfoldable pub parse_key_lookup : Bytes → Option KeyLookup
  unfolding lookup_of_parts
  parse_key_lookup s = lookup_of_parts (split_n 4 b'|' s)

module _ ⦃crypto : CryptoLib⦄ where
  unfoldable pub decrypted : CredentialRow → Result Bytes → Option KeyLookup
  decrypted row (err e) = none
  decrypted row (ok plain) = some (record {
    api_key_id = row.api_key_id;
    project_id = row.project_id;
    provider = row.provider;
    plain_key = plain;
  })

  unfoldable pub lookup_of_row : Bytes → Option CredentialRow → Option KeyLookup
  unfolding decrypted
  lookup_of_row enc_key none = none
  lookup_of_row enc_key (some row) = decrypted row (decrypt enc_key row.encrypted_key)

  -- fmt.Sprintf("keycache:%s:%s", hash, provider)
  unfoldable pub cache_key : Bytes → AiProvider → Bytes
  cache_key inbound provider = codes "keycache:" ++ (hash_key inbound ++ b':' ∷ provider)

abbrev M : Type 0 → Type 0 → Type 0
M W A = W → A × W

module _ {W : Type 0} ⦃be : Backend W⦄ ⦃lib : UuidLib⦄ ⦃crypto : CryptoLib⦄ where
  unfoldable pub resolve_from_db : Bytes → Bytes → AiProvider → M W (Option KeyLookup)
  unfolding lookup_of_row
  resolve_from_db enc_key key_hash provider w =
      let (row, w') = be.db_credential key_hash provider w in (lookup_of_row enc_key row, w')

  cache_lookup : Bytes → Option KeyLookup → M W (Option KeyLookup)
  cache_lookup key none w = (none, w)
  cache_lookup key (some l) w =
      (some l, be.redis_set_text key (encode_key_lookup l) key_cache_ttl w)

  -- The path of a cache miss, and of a Redis that does not answer.
  unfoldable pub resolve_uncached : Bytes → Bytes → AiProvider → M W (Option KeyLookup)
  unfolding cache_lookup
  resolve_uncached enc_key inbound provider w =
      let (l, w') = resolve_from_db enc_key (hash_key inbound) provider w in
      cache_lookup (cache_key inbound provider) l w'

  resolve_get : Bytes → Bytes → AiProvider → Get Bytes → M W (Option KeyLookup)
  resolve_get enc_key inbound provider (found val) w = (parse_key_lookup val, w)
  resolve_get enc_key inbound provider nil w = resolve_uncached enc_key inbound provider w
  resolve_get enc_key inbound provider failed w = resolve_uncached enc_key inbound provider w

  unfoldable pub resolve : Bytes → Bytes → AiProvider → M W (Option KeyLookup)
  unfolding resolve_get
  resolve enc_key inbound provider w =
      let (val, w') = be.redis_get_text (cache_key inbound provider) w in
      resolve_get enc_key inbound provider val w'
