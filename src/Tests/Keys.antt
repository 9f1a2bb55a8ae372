-- ===== src/Tests/Keys.antt =====
-- The theorems on keys, times, texts and credentials, at concrete inputs.
use airelay.Base.{◌≡◌, ◌↔◌, false, some, [], ◌∷◌, codes, arith}
use airelay.Time.{format_day, format_month}
use airelay.Budget.{spend_key}
use airelay.Budget.Keys.{by_day, by_month, window_name, SameWindow, spend_key-injective}
use airelay.Jobs.TtlSweep.{is_expired_spend_key, is_expired-spend_key}
use airelay.Proxy.Auth.{KeyLookup, encode_key_lookup, parse_key_lookup}
use airelay.Proxy.Auth.Lookup.{IsLookup, parse-encode}
use airelay.Proxy.Forward.{Header}
use airelay.Models.{provider_openai}
use airelay.Tests.{project, noon, noon-IsTime, toy_uuid, toy_crypto}

spend_key-injective_example :
    (spend_key project (window_name by_day) noon ≡ spend_key project (window_name by_month) noon)
    ↔ ((project ≡ project) × (by_day ≡ by_month) × SameWindow by_day noon noon)
spend_key-injective_example =
    spend_key-injective project project by_day by_month noon noon (ground arith) (ground arith)
      noon-IsTime noon-IsTime

is_expired-spend_key_example :
    (is_expired_spend_key
        (spend_key project (window_name by_month) noon)
        (format_day noon)
        (format_month noon)
      ≡ false)
    ↔ SameWindow by_month noon noon
is_expired-spend_key_example =
    is_expired-spend_key project by_month noon noon noon-IsTime noon-IsTime

abbrev pub lookup : KeyLookup
lookup = record {
  api_key_id = 3;
  project_id = 7;
  provider = provider_openai;
  plain_key = codes "s|k";
}

pub lookup-IsLookup : IsLookup lookup
lookup-IsLookup = record {
  api_key_id_fits = ground arith;
  project_id_fits = ground arith;
  provider_plain = ground arith;
  key_bytes = ground arith;
}

parse-encode_example : parse_key_lookup (encode_key_lookup lookup) ≡ some lookup
parse-encode_example = parse-encode lookup lookup-IsLookup

abbrev client_header : Header
client_header _ = codes "v" ∷ []
