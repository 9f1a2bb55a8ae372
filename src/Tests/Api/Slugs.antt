-- ===== src/Tests/Api/Slugs.antt =====
-- The theorem on the slugs, at a concrete input: a UUID's text in 36 letters.
use airelay.Base.{
  ℕ, zero, suc, ◌+◌, ◌-◌, ◌*◌, ◌/◌, ◌%◌, ◌^◌, ◌<◌, ◌≡◌, ◌⊎◌, inl, inr, refl, ap, some, [], ◌∷◌,
  Bytes, codes, Lacks, length, All, arith,
}
use airelay.Uuid.{UuidLib}
use airelay.Api.Slug.{generate_slug}
use airelay.Api.Slug.Tidy.{IsSlugByte, generate_slug-IsSlug}

abbrev digits : ℕ → ℕ → Bytes
digits zero u = []
digits (suc n) u = (b'a' + u % 16) ∷ digits n (u / 16)

abbrev number_of : Bytes → ℕ
number_of [] = 0
number_of (c ∷ s) = (c - b'a') + 16 * number_of s

number_of-digits : (n u : ℕ) → u < 16 ^ n → number_of (digits n u) ≡ u
number_of-digits zero u h = omega arith
number_of-digits (suc n) u h =
    let e : 16 ^ suc n ≡ 16 * 16 ^ n = omega arith in
    omega (arith, number_of-digits n (u / 16) (omega arith))

digits-Lacks : (b n u : ℕ) → (b < b'a') ⊎ (b'z' < b) → Lacks b (digits n u)
digits-Lacks b zero u h = tt
digits-Lacks b (suc n) u h = (ground arith, digits-Lacks b n (u / 16) h)

digits-IsSlug : (n u : ℕ) → All IsSlugByte (digits n u)
digits-IsSlug zero u = tt
digits-IsSlug (suc n) u = (inl (omega arith, omega arith), digits-IsSlug n (u / 16))

length-digits : (n u : ℕ) → length (digits n u) ≡ n
length-digits zero u = refl
length-digits (suc n) u = ap suc (length-digits n (u / 16))

instance abbrev letter_uuid : UuidLib
letter_uuid = record {
  to_string = digits 36;
  parse = λ s. some (number_of s);
  length-to_string = length-digits 36;
  to_string-Lacks_colon = λ u. digits-Lacks 58 36 u (inl (omega arith));
  to_string-Lacks_bar = λ u. digits-Lacks b'|' 36 u (inr (omega arith));
  parse-to_string = λ u h. ap some (number_of-digits 36 u (omega arith));
}

generate_slug-IsSlug_example : All IsSlugByte (generate_slug 1234567 (codes " My App! "))
generate_slug-IsSlug_example =
    generate_slug-IsSlug 1234567 (codes " My App! ") (digits-IsSlug 36 1234567)
