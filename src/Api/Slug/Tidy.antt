-- ===== src/Api/Slug/Tidy.antt =====
-- What the bytes of a slug are.
use airelay.Base.{
  ℕ, ◌≡◌, ◌≤◌, ◌⊎◌, refl, inl, inr, Bool, true, false, not, some, [], ◌∷◌, ◌++◌, Bytes, ◌==◌,
  filter, take, All, arith, suc, zero, Bool-cases,
}
use airelay.Uuid.{Uuid, UuidLib}
use airelay.Api.Slug.{
  slug_char, collapse, trim_start, trim_last, trim_end, slug_base, slug_suffix, generate_slug,
  to_lower,
}

-- A byte that stands in a URL as it is.
abbrev pub IsSlugByte : ℕ → Type 0
IsSlugByte c = ((b'a' ≤ c) × (c ≤ b'z')) ⊎ ((b'0' ≤ c) × (c ≤ b'9')) ⊎ (c ≡ b'-')

slug_char-IsSlug : (c d : ℕ) → slug_char c ≡ some d → IsSlugByte d
unfolding slug_char
slug_char-IsSlug c d h = ground arith

collapse-IsSlug : (dashed : Bool) (s : Bytes) → All IsSlugByte (collapse dashed s)
unfolding collapse slug_char
collapse-IsSlug dashed [] = tt
collapse-IsSlug dashed (c ∷ s) = ground (arith, collapse-IsSlug true s, collapse-IsSlug false s)

trim_start-IsSlug : (s : Bytes) → All IsSlugByte s → All IsSlugByte (trim_start s)
unfolding trim_start
trim_start-IsSlug [] h = tt
trim_start-IsSlug (c ∷ s) (h, hs) = ground (arith, trim_start-IsSlug s hs)

trim_last-IsSlug :
    (c : ℕ) (s : Bytes) → IsSlugByte c → All IsSlugByte s → All IsSlugByte (trim_last c s)
unfolding trim_last
trim_last-IsSlug c [] h hs = ground arith
trim_last-IsSlug c (d ∷ s) h hs = (h, hs)

trim_end-IsSlug : (s : Bytes) → All IsSlugByte s → All IsSlugByte (trim_end s)
unfolding trim_end
trim_end-IsSlug [] h = tt
trim_end-IsSlug (c ∷ s) (h, hs) = trim_last-IsSlug c (trim_end s) h (trim_end-IsSlug s hs)

All-take : (P : ℕ → Type 0) (n : ℕ) (s : Bytes) → All P s → All P (take n s)
All-take P zero s h = tt
All-take P (suc n) [] h = tt
All-take P (suc n) (c ∷ s) (h, hs) = (h, All-take P n s hs)

All-filter : (P : ℕ → Type 0) (p : ℕ → Bool) (s : Bytes) → All P s → All P (filter p s)
All-filter P p [] h = tt
All-filter P p (c ∷ s) (h, hs) = elim (Bool-cases (p c)) [
  | inl e ↦ rw e (h, All-filter P p s hs)
  | inr e ↦ rw e (All-filter P p s hs)
]

All-append : (P : ℕ → Type 0) (s t : Bytes) → All P s → All P t → All P (s ++ t)
All-append P [] t h k = k
All-append P (c ∷ s) t (h, hs) k = (h, All-append P s t hs k)

module _ ⦃lib : UuidLib⦄ where
  -- Where the text of a UUID has lower-case letters, digits and dashes alone, so has every slug,
  -- whatever the name of the project is.
  pub generate_slug-IsSlug :
      (id : Uuid) (name : Bytes)
      → All IsSlugByte (lib.to_string id)
      → All IsSlugByte (generate_slug id name)
  unfolding generate_slug slug_base slug_suffix
  generate_slug-IsSlug id name h =
      All-append IsSlugByte (slug_base name) _
        (trim_end-IsSlug _ (trim_start-IsSlug _ (collapse-IsSlug false (to_lower name))))
        (inr (inr refl), All-take IsSlugByte 6 _ (All-filter IsSlugByte (λ c. not (c == b'-')) _ h))
