-- ===== src/Api/Slug.antt =====
-- api/projects.go: the slug of a project.
pub mod Tidy
use airelay.Base.{
  ℕ, zero, suc, ◌+◌, ◌≡◌, ◌≤◌, ◌⊎◌, refl, inl, inr, Bool, true, false, ◌&&◌, ◌||◌, not, Option,
  none, some, [], ◌∷◌, ◌++◌, Bytes, codes, leb, ◌==◌, if◌then◌else◌, filter, take, All, arith,
}
use airelay.Uuid.{Uuid, UuidLib}

-- strings.ToLower, as far as it gives a letter of ASCII: for an upper-case letter of ASCII, and for the
-- dotted capital I (U+0130) and the Kelvin sign (U+212A) in UTF-8. All other runes stay outside of
-- ASCII, or as they are.
lower_byte : ℕ → ℕ
lower_byte c = if leb b'A' c && leb c b'Z' then c + 32 else c

-- The byte that a rune gives, and how many of its bytes are still to come.
lower_rune : ℕ → Bytes → ℕ × ℕ
unfolding lower_byte
lower_rune c [] = (lower_byte c, 0)
lower_rune c (d ∷ []) = if (c == 196) && (d == 176) then (b'i', 1) else (lower_byte c, 0)
lower_rune c (d ∷ e ∷ _) =
    if (c == 196) && (d == 176)
    then (b'i', 1)
    else if (c == 226) && ((d == 132) && (e == 170))
    then (b'k', 2)
    else (lower_byte c, 0)

to_lower_behind : ℕ → Bytes → Bytes
unfolding lower_rune
to_lower_behind n [] = []
to_lower_behind zero (c ∷ s) = let (d, n) = lower_rune c s in d ∷ to_lower_behind n s
to_lower_behind (suc n) (c ∷ s) = to_lower_behind n s

to_lower : Bytes → Bytes
unfolding to_lower_behind
to_lower s = to_lower_behind 0 s

-- A byte of a slug.
slug_char : ℕ → Option ℕ
slug_char c = if (leb b'a' c && leb c b'z') || (leb b'0' c && leb c b'9') then some c else none

-- nonAlphanumeric.ReplaceAllString(…, "-"): a run of other bytes gives one
-- dash, and `dashed` says that the run has it.
collapse : Bool → Bytes → Bytes
unfolding slug_char
collapse dashed [] = []
collapse dashed (c ∷ s) =
    let in_run = collapse true s in
    let in_word = collapse false s in
    elim (slug_char c) [ some d ↦ d ∷ in_word | none ↦ if dashed then in_run else b'-' ∷ in_run ]

-- strings.Trim(slug, "-")
trim_start : Bytes → Bytes
trim_start [] = []
trim_start (c ∷ s) = let rest = trim_start s in if c == b'-' then rest else c ∷ s

trim_last : ℕ → Bytes → Bytes
trim_last c [] = if c == b'-' then [] else c ∷ []
trim_last c (d ∷ s) = c ∷ d ∷ s

trim_end : Bytes → Bytes
unfolding trim_last
trim_end [] = []
trim_end (c ∷ s) = trim_last c (trim_end s)

-- The slug before its suffix.
unfoldable pub slug_base : Bytes → Bytes
unfolding collapse trim_start trim_end to_lower
slug_base name = trim_end (trim_start (collapse false (to_lower name)))

module _ ⦃lib : UuidLib⦄ where
  -- strings.ReplaceAll(uuid.New().String(), "-", "")[:6]
  slug_suffix : Uuid → Bytes
  slug_suffix id = take 6 (filter (λ c. not (c == b'-')) (lib.to_string id))

  -- generateSlug(name)
  unfoldable pub generate_slug : Uuid → Bytes → Bytes
  unfolding slug_suffix
  generate_slug id name = slug_base name ++ b'-' ∷ slug_suffix id
