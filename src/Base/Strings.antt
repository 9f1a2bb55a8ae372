-- ===== src/Base/Strings.antt =====
-- Go strings and byte slices as lists of bytes, with the functions of package strings in use.
use Prim.Native.Nat.{ℕ, zero, suc, ◌-◌, ◌<◌}
use Prim.Native.Char.{code}
use Prim.Native.String.{String}
use mathlib.Core.Path.{◌≡◌, refl, ap}
use mathlib.Core.Logic.{◌≢◌, ◌↔◌, inl, inr}
use mathlib.Core.Bool.{Bool, true, false, ◌&&◌, ◌||◌}
use mathlib.Core.Option.{Option, none, some}
use mathlib.Core.List.{List, [], ◌∷◌, ◌++◌}
use native.Mathlib.Omega.{arith}
use airelay.Base.Tests.{leb, ◌==◌, if◌then◌else◌, Bool-cases, Option-cases}
use airelay.Base.Lists.{length, drop, All}

abbrev pub Bytes : Type 0
Bytes = List ℕ

-- The code points of a literal; these are its bytes when the text is ASCII.
abbrev pub codes : String → Bytes
codes String.[] = []
codes (String.◌∷◌ c s) = code c ∷ codes s

-- `a == b` of two strings.
abbrev pub bytes_eq : Bytes → Bytes → Bool
bytes_eq [] [] = true
bytes_eq [] (_ ∷ _) = false
bytes_eq (_ ∷ _) [] = false
bytes_eq (x ∷ xs) (y ∷ ys) = (x == y) && bytes_eq xs ys

pub bytes_eq_refl : (xs : Bytes) → bytes_eq xs xs ≡ true
bytes_eq_refl [] = refl
bytes_eq_refl (x ∷ xs) = ground (arith, bytes_eq_refl xs)

pub bytes_eq_sound : (xs ys : Bytes) → bytes_eq xs ys ≡ true → xs ≡ ys
bytes_eq_sound [] [] h = refl
bytes_eq_sound [] (y ∷ ys) h = cc
bytes_eq_sound (x ∷ xs) [] h = cc
bytes_eq_sound (x ∷ xs) (y ∷ ys) h = ground (arith, bytes_eq_sound xs ys)

pub bytes_eq_iff : (xs ys : Bytes) → (bytes_eq xs ys ≡ true) ↔ (xs ≡ ys)
bytes_eq_iff xs ys = (bytes_eq_sound xs ys, λ e. rw e (bytes_eq_refl ys))

pub bytes_ne : (xs ys : Bytes) → xs ≢ ys → bytes_eq xs ys ≡ false
bytes_ne xs ys h = elim (Bool-cases (bytes_eq xs ys)) [
  | inl e ↦ absurd (h (bytes_eq_sound xs ys e))
  | inr e ↦ e
]

-- strings.HasPrefix, the text first.
abbrev pub has_prefix : Bytes → Bytes → Bool
has_prefix _ [] = true
has_prefix [] (_ ∷ _) = false
has_prefix (c ∷ s) (p ∷ ps) = (c == p) && has_prefix s ps

-- strings.TrimPrefix.
abbrev pub trim_prefix : Bytes → Bytes → Bytes
trim_prefix s p = if has_prefix s p then drop (length p) s else s

pub has_prefix-append : (p s : Bytes) → has_prefix (p ++ s) p ≡ true
has_prefix-append [] [] = refl
has_prefix-append [] (c ∷ s) = refl
has_prefix-append (p ∷ ps) s = ground (arith, has_prefix-append ps s)

-- The text before the first `sep` and the text behind it.
abbrev pub cut : ℕ → Bytes → Option (Bytes × Bytes)
cut sep [] = none
cut sep (c ∷ s) =
    let rest = cut sep s in
    if c == sep then some ([], s) else elim rest [ none ↦ none | some (b, a) ↦ some (c ∷ b, a) ]

-- A piece, and the pieces of the text behind its separator.
abbrev split_more : Option (Bytes × Bytes) → Bytes → (Bytes → List Bytes) → List Bytes
split_more none s more = s ∷ []
split_more (some (b, a)) s more = b ∷ more a

-- strings.SplitN(s, sep, n) for a separator of one byte and 1 ≤ n; `split_n 0` is Go's nil.
abbrev pub split_n : ℕ → ℕ → Bytes → List Bytes
split_n zero sep s = []
split_n (suc zero) sep s = s ∷ []
split_n (suc (suc n)) sep s = split_more (cut sep s) s (split_n (suc n) sep)

abbrev pub extend_head : ℕ → List Bytes → List Bytes
extend_head c [] = (c ∷ []) ∷ []
extend_head c (p ∷ ps) = (c ∷ p) ∷ ps

-- strings.Split for a separator of one byte.
abbrev pub split : ℕ → Bytes → List Bytes
split sep [] = [] ∷ []
split sep (c ∷ s) = let rest = split sep s in if c == sep then [] ∷ rest else extend_head c rest

abbrev pub Lacks : ℕ → Bytes → Type 0
Lacks b = All (λ c. c ≢ b)

pub Lacks-append : (b : ℕ) (xs ys : Bytes) → Lacks b xs → Lacks b ys → Lacks b (xs ++ ys)
Lacks-append b [] ys hx hy = hy
Lacks-append b (x ∷ xs) ys hx hy = (hx.0, Lacks-append b xs ys hx.1 hy)

pub cut-append :
    (sep : ℕ) (p rest : Bytes) → Lacks sep p → cut sep (p ++ sep ∷ rest) ≡ some (p, rest)
cut-append sep [] rest h = ground arith
cut-append sep (c ∷ p) rest h = ground (arith, cut-append sep p rest h.1)

-- What a cut gives is the text around its separator.
pub cut_sound : (sep : ℕ) (s b a : Bytes) → cut sep s ≡ some (b, a) → s ≡ b ++ sep ∷ a
cut_sound sep [] b a e = cc
cut_sound sep (c ∷ s) b a e = elim (Bool-cases (c == sep)) [
  | inl h ↦
      let x = rw h at e in
      let p : [] ≡ b = cc in
      let q : s ≡ a = cc in let r : c ≡ sep = ground arith in rw (← p, ← q, r) refl
  | inr h ↦ elim (Option-cases (cut sep s)) [
    | inl n ↦ let x = rw (h, n) at e in cc
    | inr ((b', a'), f) ↦
        let x = rw (h, f) at e in
        let p : c ∷ b' ≡ b = cc in
        let q : a' ≡ a = cc in rw (← p, ← q) (ap (◌∷◌ c) (cut_sound sep s b' a' f))
  ]
]

pub cut_absent : (sep : ℕ) (p : Bytes) → Lacks sep p → cut sep p ≡ none
cut_absent sep [] h = refl
cut_absent sep (c ∷ p) h = ground (arith, cut_absent sep p h.1)

pub split-append :
    (sep : ℕ) (p rest : Bytes) → Lacks sep p → split sep (p ++ sep ∷ rest) ≡ p ∷ split sep rest
split-append sep [] rest h = ground arith
split-append sep (c ∷ p) rest h = ground (arith, split-append sep p rest h.1)

pub split_absent : (sep : ℕ) (p : Bytes) → Lacks sep p → split sep p ≡ p ∷ []
split_absent sep [] h = refl
split_absent sep (c ∷ p) h = ground (arith, split_absent sep p h.1)

-- Two texts with heads of one length are equal part by part.
pub append_cancel : (p q r s : Bytes) → length p ≡ length q → p ++ r ≡ q ++ s → (p ≡ q) × (r ≡ s)
append_cancel [] [] r s l e = (refl, e)
append_cancel [] (y ∷ q) r s l e = absurd (omega arith)
append_cancel (x ∷ p) [] r s l e = absurd (omega arith)
append_cancel (x ∷ p) (y ∷ q) r s l e =
    let (h, t) = append_cancel p q r s (omega arith) (cc) in (cc, t)

-- Texts that the test tells apart are different: `bytes_apart _ _ refl` for two literals.
pub bytes_apart : (xs ys : Bytes) → bytes_eq xs ys ≡ false → xs ≢ ys
bytes_apart xs ys f e = let same : bytes_eq xs ys ≡ true = (bytes_eq_iff xs ys).1 e in cc

pub split_n-append :
    (n sep : ℕ) (p rest : Bytes)
    → Lacks sep p
    → split_n (suc (suc n)) sep (p ++ sep ∷ rest) ≡ p ∷ split_n (suc n) sep rest
split_n-append n sep p rest h =
    ap (λ c. split_more c (p ++ sep ∷ rest) (split_n (suc n) sep)) (cut-append sep p rest h)

-- unicode.IsSpace, by the bytes of a rune in UTF-8: one for ASCII, two for U+0085 and U+00A0, and three
-- for U+1680, U+2000 to U+200A, U+2028, U+2029, U+202F, U+205F and U+3000.
abbrev pub is_space : ℕ → Bool
is_space c = (leb 9 c && leb c 13) || (c == 32)

abbrev is_space_2 : ℕ → ℕ → Bool
is_space_2 c d = (c == 194) && ((d == 133) || (d == 160))

abbrev is_space_3 : ℕ → ℕ → ℕ → Bool
is_space_3 c d e =
    ((c == 225) && ((d == 154) && (e == 128)))
    || ((c == 226)
        && ((d == 128) && ((leb 128 e && leb e 138) || ((e == 168) || ((e == 169) || (e == 175))))))
    || ((c == 226) && ((d == 129) && (e == 159)))
    || ((c == 227) && ((d == 128) && (e == 128)))

-- Whether a text is one rune of white space.
abbrev is_space_rune : Bytes → Bool
is_space_rune [] = false
is_space_rune (c ∷ []) = is_space c
is_space_rune (c ∷ d ∷ []) = is_space_2 c d
is_space_rune (c ∷ d ∷ e ∷ []) = is_space_3 c d e
is_space_rune (_ ∷ _ ∷ _ ∷ _ ∷ _) = false

-- How many bytes the white space takes that a text begins with, for one rune of it.
abbrev space_size : Bytes → ℕ
space_size [] = 0
space_size (c ∷ []) = if is_space c then 1 else 0
space_size (c ∷ d ∷ []) = if is_space c then 1 else if is_space_2 c d then 2 else 0
space_size (c ∷ d ∷ e ∷ _) =
    if is_space c then 1 else if is_space_2 c d then 2 else if is_space_3 c d e then 3 else 0

-- The text without the white space that it begins with, behind `n` bytes that go with it.
abbrev trim_skip : ℕ → Bytes → Bytes
trim_skip n [] = []
trim_skip zero (c ∷ s) =
    let size = space_size (c ∷ s) in
    let rest = trim_skip (size - 1) s in if size == 0 then c ∷ s else rest
trim_skip (suc n) (c ∷ s) = trim_skip n s

abbrev trim_left : Bytes → Bytes
trim_left s = trim_skip 0 s

abbrev trim_end : ℕ → Bytes → Bytes
trim_end c t = if is_space_rune (c ∷ t) then [] else c ∷ t

abbrev trim_right : Bytes → Bytes
trim_right [] = []
trim_right (c ∷ s) = trim_end c (trim_right s)

-- bytes.TrimSpace.
unfoldable pub trim_space : Bytes → Bytes
trim_space s = trim_right (trim_left s)

space_size_visible : (c : ℕ) (s : Bytes) → c < 128 → is_space c ≡ false → space_size (c ∷ s) ≡ 0
space_size_visible c [] k h = ground arith
space_size_visible c (d ∷ []) k h = ground arith
space_size_visible c (d ∷ e ∷ s) k h = ground arith

is_space_rune_visible :
    (c : ℕ) (s : Bytes) → c < 128 → is_space c ≡ false → is_space_rune (c ∷ s) ≡ false
is_space_rune_visible c [] k h = h
is_space_rune_visible c (d ∷ []) k h = ground arith
is_space_rune_visible c (d ∷ e ∷ []) k h = ground arith
is_space_rune_visible c (d ∷ e ∷ f ∷ s) k h = refl

-- A text that begins with a visible character of ASCII keeps it.
pub trim_space-keep :
    (c : ℕ) (s : Bytes) → c < 128 → is_space c ≡ false → (t : Bytes) × (trim_space (c ∷ s) ≡ c ∷ t)
unfolding trim_space
trim_space-keep c s k h = (
  trim_right s,
  rw (space_size_visible c s k h) (rw (is_space_rune_visible c (trim_right s) k h) refl),
)

trim_space_run : trim_space (194 ∷ 160 ∷ 97 ∷ 32 ∷ 226 ∷ 128 ∷ 168 ∷ []) ≡ 97 ∷ []
unfolding trim_space
trim_space_run = refl
