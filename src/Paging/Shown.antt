-- ===== src/Paging/Shown.antt =====
-- PaginationBar.tsx, against the slice of RecordTableView.tsx.
use beast_db.Prelude.{
  ℕ, zero, suc, ◌+◌, ◌-◌, ◌*◌, ◌≤◌, ◌<◌, ◌≡◌, refl, sym, ap, ◌∙◌, false, List, [], ◌∷◌, length,
  take, drop, min, length-take, length-drop, max, arith,
}
use beast_db.Paging.{
  ceil_div, pagination_bar, table_page_size, paginated, Click, previous, next, turn,
}

empty : {A : Type 0} (xs : List A) → length xs ≡ 0 → xs ≡ []
empty [] h = refl
empty (x ∷ xs) h = cc

take-nil {ℓ} : {A : Type ℓ} (n : ℕ) → take {A = A} n [] ≡ []
take-nil zero = refl
take-nil (suc n) = refl

drop-nil {ℓ} : {A : Type ℓ} (n : ℕ) → drop {A = A} n [] ≡ []
drop-nil zero = refl
drop-nil (suc n) = refl

nil-slices {ℓ} :
    {A : Type ℓ} (a b c d : ℕ) → take {A = A} a (drop b []) ≡ take {A = A} c (drop d [])
nil-slices {A} a b c d =
    ap (take a) (drop-nil b) ∙ take-nil a ∙ sym (take-nil c) ∙ ap (take c) (sym (drop-nil d))

-- Of the rest of a list, what is past its end is not taken.
take_within {ℓ} :
    {A : Type ℓ} (n k m : ℕ) (xs : List A)
    → m ≡ min (k + n) (length xs) - k
    → take n (drop k xs) ≡ take m (drop k xs)
take_within n k m [] e = nil-slices n k m k
take_within zero zero m (x ∷ xs) e = let none_left : m ≡ 0 = omega (arith, e) in rw none_left refl
take_within (suc n) zero zero (x ∷ xs) e = absurd (omega (arith, e))
take_within (suc n) zero (suc m) (x ∷ xs) e =
    ap (λ ys. x ∷ ys) (take_within n zero m xs (omega (arith, e)))
take_within n (suc k) m (x ∷ xs) e = take_within n k m xs (omega (arith, e))

before-page : (page size : ℕ) → 1 ≤ page → page * size ≡ (page - 1) * size + size
before-page zero size a = absurd (omega (arith, a))
before-page (suc q) size a = grind arith

within-safe : (page total : ℕ) → 1 ≤ page → page ≤ total → min (max 1 page) total ≡ page
within-safe page total a b = omega arith

-- From the record with the first number of the bar to the one with its last number.
abbrev pub between {ℓ} : {A : Type ℓ} → ℕ → ℕ → List A → List A
between first last records = take (last - (first - 1)) (drop (first - 1) records)

-- On a page that there is, whatever the size of the pages, what is shown is the part of the records
-- from the number with which the bar begins to the one with which it ends.
pub paginated-eq-between {ℓ} :
    {A : Type ℓ} (size page : ℕ) (records : List A)
    → 1 ≤ page
    → page ≤ (pagination_bar page size (length records) false).total_pages
    → paginated page size records
      ≡ between
          (pagination_bar page size (length records) false).start_idx
          (pagination_bar page size (length records) false).end_idx
          records
unfolding paginated pagination_bar
paginated-eq-between size page [] a b =
    let bar = pagination_bar page size 0 false in
    nil-slices size ((page - 1) * size) (bar.end_idx - (bar.start_idx - 1)) (bar.start_idx - 1)
paginated-eq-between size page (x ∷ records) a b =
    let bar = pagination_bar page size (length (x ∷ records)) false in
    let on_page = within-safe page bar.total_pages a b in
    let first : bar.start_idx - 1 ≡ (page - 1) * size = rw on_page (ground arith) in
    let last : bar.end_idx ≡ min ((page - 1) * size + size) (length (x ∷ records)) =
      rw on_page (ap (λ n. min n (length (x ∷ records))) (before-page page size a)) in
    take_within size ((page - 1) * size) (bar.end_idx - (bar.start_idx - 1)) (x ∷ records)
      (rw (first, last) refl)
    ∙ ap (λ n. take (bar.end_idx - (bar.start_idx - 1)) (drop n (x ∷ records))) (sym first)

-- Where the table stays on a page that its records no longer reach, it shows none of them, while the
-- bar counts up to the last one.
pub paginated-past :
    {A : Type 0} (records : List A) (page : ℕ)
    → (pagination_bar page table_page_size (length records) false).total_pages < page
    → (paginated page table_page_size records ≡ [])
      × ((pagination_bar page table_page_size (length records) false).end_idx ≡ length records)
unfolding paginated pagination_bar
paginated-past records page h = (
  empty _ (
      ground (
        arith,
        length-take 25 (drop ((page - 1) * 25) records),
        length-drop ((page - 1) * 25) records,
      )),
  ground arith,
)

-- From a page that there is, the arrows lead to a page that there is, and so does an arrow that is
-- disabled.
pub turn-bounds :
    (total page : ℕ) (c : Click)
    → 1 ≤ page
    → page ≤ max 1 (ceil_div total table_page_size)
    → (1 ≤ turn table_page_size total c page)
      × (turn table_page_size total c page ≤ max 1 (ceil_div total table_page_size))
unfolding turn
turn-bounds total page previous a b = (ground arith, ground arith)
turn-bounds total page next a b = (ground arith, ground arith)
