-- ===== src/Base/Tables.antt =====
-- Tables as lists of rows: what WHERE, UPDATE and DELETE do, and a sort.
use Prim.Native.Nat.{ℕ, ◌+◌}
use mathlib.Core.Path.{◌≡◌, refl}
use mathlib.Core.Bool.{Bool, true, false, not, ◌||◌}
use mathlib.Core.Option.{Option, none, some}
use mathlib.Core.List.{List, [], ◌∷◌, ◌++◌}
use native.Mathlib.Omega.{arith}
use airelay.Base.Tests.{if◌then◌else◌, leb}

module _ {ℓ} {A : Type ℓ} where
  -- The rows that pass a test.
  abbrev pub filter : (A → Bool) → List A → List A
  filter p [] = []
  filter p (x ∷ xs) = let rest = filter p xs in if p x then x ∷ rest else rest

  abbrev pub any : (A → Bool) → List A → Bool
  any p [] = false
  any p (x ∷ xs) = p x || any p xs

  -- The first row that passes a test.
  abbrev pub find : (A → Bool) → List A → Option A
  find p [] = none
  find p (x ∷ xs) = let rest = find p xs in if p x then some x else rest

  abbrev pub count_where : (A → Bool) → List A → ℕ
  count_where p [] = 0
  count_where p (x ∷ xs) = (if p x then 1 else 0) + count_where p xs

  abbrev pub update_where : (A → Bool) → (A → A) → List A → List A
  update_where p f [] = []
  update_where p f (x ∷ xs) = (if p x then f x else x) ∷ update_where p f xs

  abbrev pub delete_where : (A → Bool) → List A → List A
  delete_where p = filter (λ x. not (p x))

  abbrev insert_by : (A → ℕ) → A → List A → List A
  insert_by key x [] = x ∷ []
  insert_by key x (y ∷ ys) =
      let later = insert_by key x ys in if leb (key y) (key x) then x ∷ y ∷ ys else y ∷ later

  -- ORDER BY key DESC. The order of rows with one key is open in SQL; here it is the table's.
  unfoldable pub sort_desc : (A → ℕ) → List A → List A
  sort_desc key [] = []
  sort_desc key (x ∷ xs) = insert_by key x (sort_desc key xs)

  pub filter-append_out :
      (q : A → Bool) (xs : List A) (x : A) → q x ≡ false → filter q (xs ++ x ∷ []) ≡ filter q xs
  filter-append_out q [] x h = rw h refl
  filter-append_out q (y ∷ xs) x h = rw (filter-append_out q xs x h) refl

  pub filter-update_where :
      (q p : A → Bool) (f : A → A) (xs : List A)
      → ((x : A) → q x ≡ true → p x ≡ false)
      → ((x : A) → q (f x) ≡ q x)
      → filter q (update_where p f xs) ≡ filter q xs
  filter-update_where q p f [] h k = refl
  filter-update_where q p f (x ∷ xs) h k =
      ground (arith, filter-update_where q p f xs h k, h x, k x)

  pub filter-delete_where :
      (q p : A → Bool) (xs : List A)
      → ((x : A) → q x ≡ true → p x ≡ false)
      → filter q (delete_where p xs) ≡ filter q xs
  filter-delete_where q p [] h = refl
  filter-delete_where q p (x ∷ xs) h = ground (arith, filter-delete_where q p xs h, h x)

  pub count_where-append :
      (p : A → Bool) (xs ys : List A)
      → count_where p (xs ++ ys) ≡ count_where p xs + count_where p ys
  count_where-append p [] ys = omega arith
  count_where-append p (x ∷ xs) ys = omega (arith, count_where-append p xs ys)
