-- ===== src/Encrypt.antt =====
-- internal/encrypt/encrypt.go: AES-256-GCM with a random nonce in front of the sealed text. SHA-256,
-- base64 and the cipher are Go's crypto and encoding packages, a parameter here.
use airelay.Base.{
  ℕ, ◌≤◌, ◌≡◌, ◌∙◌, ap, sym, Bool, false, length-append, ◌||◌, not, Option, none, some, ◌++◌, arith,
  Bytes, length, take, drop, ltb, ◌==◌, if◌then◌else◌, drop-length-append, take-length-append,
}

pub record CryptoLib : Type 0 where
  pub sha256 : Bytes → Bytes
  pub base64_encode : Bytes → Bytes
  pub base64_decode : Bytes → Option Bytes
  -- gcm.Seal(nil, nonce, plaintext, nil) and gcm.Open(nil, nonce, sealed, nil) under a key
  pub seal : Bytes → Bytes → Bytes → Bytes
  pub unseal : Bytes → Bytes → Bytes → Option Bytes

-- What the packages document.
pub record CryptoLaws (lib : CryptoLib) : Type 0 where
  pub length-sha256 : (s : Bytes) → length (lib.sha256 s) ≡ 32
  pub base64_decode-base64_encode : (s : Bytes) → lib.base64_decode (lib.base64_encode s) ≡ some s
  pub unseal-seal :
      (key nonce text : Bytes) → lib.unseal key nonce (lib.seal key nonce text) ≡ some text

pub data Error : Type 0 where
  short_key bad_cipher no_nonce bad_base64 short_ciphertext not_authentic : Error

pub data Result {ℓ} (A : Type ℓ) : Type ℓ where
  ok : A → Result A
  err : Error → Result A

infixl 5 ◌>>=◌ ◌>>◌
abbrev ◌>>=◌ {ℓ κ} : {A : Type ℓ} {B : Type κ} → Result A → (A → Result B) → Result B
ok a >>= f = f a
err e >>= f = err e

abbrev ◌>>◌ {ℓ} : {B : Type ℓ} → Result (Unit {0}) → Result B → Result B
m >> k = m >>= λ _. k

abbrev fail_if : Bool → Error → Result (Unit {0})
fail_if b e = if b then err e else ok tt

abbrev or_fail {ℓ} : {A : Type ℓ} → Option A → Error → Result A
or_fail none e = err e
or_fail (some a) e = ok a

-- gcm.NonceSize()
abbrev pub nonce_size : ℕ
nonce_size = 12

module _ ⦃lib : CryptoLib⦄ where
  derive_key : Bytes → Bytes
  derive_key key = lib.sha256 key

  -- aes.NewCipher takes keys of 16, 24 and 32 bytes.
  bad_size : Bytes → Bool
  bad_size key = not (length key == 16 || length key == 24 || length key == 32)

  -- `nonce` is what io.ReadFull(rand.Reader, …) gives; `none` is its error.
  unfoldable pub encrypt : Option Bytes → Bytes → Bytes → Result Bytes
  unfolding derive_key bad_size
  encrypt nonce key plaintext = do
    fail_if (ltb (length key) 16) short_key
    fail_if (bad_size (derive_key key)) bad_cipher
    n ← or_fail nonce no_nonce
    ok (lib.base64_encode (n ++ lib.seal (derive_key key) n plaintext))

  unfoldable pub decrypt : Bytes → Bytes → Result Bytes
  unfolding derive_key bad_size
  decrypt key ciphertext = do
    sealed ← or_fail (lib.base64_decode ciphertext) bad_base64
    fail_if (bad_size (derive_key key)) bad_cipher
    fail_if (ltb (length sealed) nonce_size) short_ciphertext
    or_fail (lib.unseal (derive_key key) (take nonce_size sealed) (drop nonce_size sealed))
        not_authentic

  -- With a key of at least 16 bytes and a nonce of the cipher's size, the encryption succeeds, and
  -- the decryption under the same key gives the plaintext back.
  pub decrypt-encrypt :
      (laws : CryptoLaws lib) (nonce key plaintext : Bytes)
      → length nonce ≡ nonce_size
      → 16 ≤ length key
      → (c : Bytes) × (encrypt (some nonce) key plaintext ≡ ok c) × (decrypt key c ≡ ok plaintext)
  unfolding encrypt decrypt
  decrypt-encrypt laws nonce key plaintext h k =
      let body = lib.seal (lib.sha256 key) nonce plaintext in
      let sealed = nonce ++ body in
      let t : take nonce_size sealed ≡ nonce =
        ap (λ n. take n sealed) (sym h) ∙ take-length-append nonce body in
      let d : drop nonce_size sealed ≡ body =
        ap (λ n. drop n sealed) (sym h) ∙ drop-length-append nonce body in
      let a : ltb (length key) 16 ≡ false = ground arith in
      let b : ltb (length sealed) nonce_size ≡ false = ground (arith, length-append nonce body) in
      (
        lib.base64_encode sealed,
        rw (a, laws.length-sha256 key),
        rw (
          laws.base64_decode-base64_encode sealed,
          laws.length-sha256 key,
          b,
          t,
          d,
          laws.unseal-seal (lib.sha256 key) nonce plaintext,
        ),
      )
