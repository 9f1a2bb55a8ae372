-- ===== src/Tokens/Google.antt =====
-- What the Google parser makes of the lines of an event stream.
use airelay.Base.{◌≡◌, refl, none, ◌∷◌, ◌++◌, Bytes, codes, trim_space-keep, arith}
use airelay.Tokens.{JsonLib, data_prefix, parse_google_chunk}

-- No JSON text begins with the letter `d`: encoding/json refuses one.
pub record RejectsD (json : JsonLib) : Type 0 where
  pub google_rejects : (s : Bytes) → json.google_chunk (b'd' ∷ s) ≡ none

module _ ⦃json : JsonLib⦄ where
  -- ParseGoogleChunk does not take off the `data: ` of a server-sent event, so it finds no usage in
  -- any data line, also where the JSON behind the prefix has one.
  pub parse_google_chunk-data :
      RejectsD json → (s : Bytes) → parse_google_chunk (data_prefix ++ s) ≡ none
  unfolding parse_google_chunk
  parse_google_chunk-data h s =
      let (t, e) = trim_space-keep b'd' (codes "ata: " ++ s) (omega arith) refl in
      rw (e, h.google_rejects t)
