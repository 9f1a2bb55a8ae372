-- ===== src/Api/Usage/Pages.antt =====
-- The pages of a project's usage.
use airelay.Base.{
  ℕ, zero, suc, ◌+◌, ◌-◌, ◌*◌, ◌%◌, ◌≤◌, ◌<◌, ◌≡◌, refl, sym, false, Option, none, some, List, [],
  ◌∷◌, ◌++◌, leb, take, drop, arith,
}
use airelay.Uuid.{Uuid}
use airelay.Models.{UsageEvent}
use airelay.Api.Db.{Db}
use airelay.Api.Usage.{
  int_mod, int_half, lt_one, page_of, limit_of, offset_of, events_since, event_page,
}

take-nil {ℓ} : {A : Type ℓ} (n : ℕ) → take {A = A} n [] ≡ []
take-nil zero = refl
take-nil (suc n) = refl

take-add {ℓ} :
    {A : Type ℓ} (m n : ℕ) (xs : List A) → take (m + n) xs ≡ take m xs ++ take n (drop m xs)
take-add zero n xs = let e : 0 + n ≡ n = omega arith in rw e refl
take-add (suc m) n [] = let e : suc m + n ≡ suc (m + n) = omega arith in rw (e, take-nil n) refl
take-add (suc m) n (x ∷ xs) =
    let e : suc m + n ≡ suc (m + n) = omega arith in rw (e, take-add m n xs) refl

append_pages {ℓ} : {A : Type ℓ} → Option (List A) → Option (List A) → Option (List A)
append_pages (some xs) (some ys) = some (xs ++ ys)
append_pages _ _ = none

-- The first pages, one after the other, as a client reads them.
unfoldable pub first_pages : Uuid → ℕ → ℕ → ℕ → Db → Option (List UsageEvent)
unfolding append_pages
first_pages project start limit zero db = some []
first_pages project start limit (suc n) db =
    append_pages (first_pages project start limit n db)
      (event_page project start limit (offset_of (page_of (suc n)) limit) db)

suc_mul : (n l : ℕ) → suc n * l ≡ n * l + l
suc_mul n l = ground arith

offset_small : (n l : ℕ) → n * l < int_half → (suc n - 1) * l % int_mod ≡ n * l
offset_small n l h = let e : suc n - 1 ≡ n = omega arith in rw e (omega arith)

-- On tables that do not change, the pages of the history that a client reads one after the other
-- are its beginning: no event is missing or comes twice, while n pages have fewer than 2^63 events.
pub first_pages_lem :
    (project : Uuid) (start limit n : ℕ) (db : Db)
    → n * limit < int_half
    → n < int_half
    → first_pages project start limit n db ≡ some (take (n * limit) (events_since project start db))
unfolding first_pages append_pages event_page offset_of page_of
first_pages_lem project start limit zero db h k = let e : 0 * limit ≡ 0 = omega arith in rw e refl
first_pages_lem project start limit (suc n) db h k =
    let e : suc n * limit ≡ n * limit + limit = suc_mul n limit in
    let below : n * limit + limit < int_half = rw (sym e) h in
    let pos : lt_one (suc n) ≡ false = ground arith in
    let offset : (suc n - 1) * limit % int_mod ≡ n * limit = offset_small n limit (omega arith) in
    let fits : leb int_half (n * limit) ≡ false = ground arith in
    rw
      (
        first_pages_lem project start limit n db (omega arith) (omega arith),
        pos,
        offset,
        fits,
        e,
        take-add (n * limit) limit (events_since project start db),
      )
      refl

-- Whatever the query says, the limit of a page is between 1 and 200, and its number is positive as
-- an int.
pub page_bounds :
    (n : ℕ) → ((1 ≤ limit_of n) × (limit_of n ≤ 200)) × (1 ≤ page_of n) × (page_of n < int_half)
unfolding limit_of page_of
page_bounds n = ((ground arith, ground arith), ground arith, ground arith)
