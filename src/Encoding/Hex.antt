-- ===== src/Encoding/Hex.antt =====
-- Package encoding/hex: EncodeToString and DecodeString.
use airelay.Base.{
  ℕ, ◌+◌, ◌-◌, ◌*◌, ◌/◌, ◌%◌, ◌<◌, ◌≡◌, refl, ◌&&◌, Option, none, some, [], ◌∷◌, arith, Bytes, All,
  ltb, leb, if◌then◌else◌,
}

hex_digit : ℕ → ℕ
hex_digit n = if ltb n 10 then b'0' + n else b'a' + (n - 10)

unfoldable pub hex_encode : Bytes → Bytes
unfolding hex_digit
hex_encode [] = []
hex_encode (b ∷ s) = hex_digit (b / 16) ∷ hex_digit (b % 16) ∷ hex_encode s

from_hex : ℕ → Option ℕ
from_hex c =
    if leb b'0' c && leb c b'9'
    then some (c - b'0')
    else if leb b'a' c && leb c b'f'
    then some (c - b'a' + 10)
    else if leb b'A' c && leb c b'F'
    then some (c - b'A' + 10)
    else none

join_digits : Option ℕ → Option ℕ → Option Bytes → Option Bytes
join_digits (some h) (some l) (some s) = some ((h * 16 + l) ∷ s)
join_digits _ _ _ = none

join_digits_lem :
    (h l : ℕ) (s : Bytes) → join_digits (some h) (some l) (some s) ≡ some ((h * 16 + l) ∷ s)
unfolding join_digits
join_digits_lem h l s = refl

-- An error for an odd length or for a byte that is no digit.
unfoldable pub hex_decode : Bytes → Option Bytes
unfolding join_digits from_hex
hex_decode [] = some []
hex_decode (_ ∷ []) = none
hex_decode (h ∷ l ∷ s) = join_digits (from_hex h) (from_hex l) (hex_decode s)

from_hex-hex_digit : (n : ℕ) → n < 16 → from_hex (hex_digit n) ≡ some n
unfolding from_hex hex_digit
from_hex-hex_digit n h = ground arith

-- Text of bytes, and not of larger numbers.
abbrev pub IsBytes : Bytes → Type 0
IsBytes = All (λ b. b < 256)

hex_encode-cons :
    (b : ℕ) (s : Bytes)
    → hex_encode (b ∷ s) ≡ hex_digit (b / 16) ∷ hex_digit (b % 16) ∷ hex_encode s
unfolding hex_encode
hex_encode-cons b s = refl

hex_decode-cons :
    (h l : ℕ) (s : Bytes)
    → hex_decode (h ∷ l ∷ s) ≡ join_digits (from_hex h) (from_hex l) (hex_decode s)
unfolding hex_decode
hex_decode-cons h l s = refl

pub hex_decode-hex_encode : (s : Bytes) → IsBytes s → hex_decode (hex_encode s) ≡ some s
hex_decode-hex_encode [] h = unfold hex_decode hex_encode in refl
hex_decode-hex_encode (b ∷ s) h =
    let e : b / 16 * 16 + b % 16 ≡ b = omega arith in
    rw (
      hex_encode-cons,
      hex_decode-cons,
      from_hex-hex_digit (b / 16) (omega arith),
      from_hex-hex_digit (b % 16) (omega arith),
      hex_decode-hex_encode s h.1,
      join_digits_lem,
      e,
    )
