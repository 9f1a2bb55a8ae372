-- ===== src/Uuid.antt =====
-- github.com/google/uuid, which the program calls and does not implement. A `uuid.UUID` is its
-- 128-bit value.
use airelay.Base.{ℕ, ◌^◌, ◌<◌, ◌≡◌, Option, some, Bytes, Lacks, length}

abbrev pub Uuid : Type 0
Uuid = ℕ

-- The texts are 36 characters of `0-9`, `a-f` and `-`, so they hold neither separator of the cache
-- keys.
pub record UuidLib : Type 0 where
  pub to_string : Uuid → Bytes
  pub parse : Bytes → Option Uuid
  pub length-to_string : (u : Uuid) → length (to_string u) ≡ 36
  pub to_string-Lacks_colon : (u : Uuid) → Lacks b':' (to_string u)
  pub to_string-Lacks_bar : (u : Uuid) → Lacks b'|' (to_string u)
  pub parse-to_string : (u : Uuid) → u < 2 ^ 128 → parse (to_string u) ≡ some u
