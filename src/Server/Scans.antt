-- ===== src/Server/Scans.antt =====
-- Pages of the entries of a store, one after the other.
use beast_db.Prelude.{
  ℕ, zero, suc, ◌≤◌, ◌≡◌, refl, ◌∙◌, Bool, true, false, ◌&&◌, List, [], ◌∷◌, map, All, keep, take,
  drop, ltb, leb, arith, Bool-cases, inl, inr, ap, sym,
}
use beast_db.Prelude.Sort.{IsSorted}
use beast_db.Js.Text.{Text}
use beast_db.Js.BigInt.{to_decimal}
use beast_db.Server.{Entry, within, raw_of, page_from, page_of}

abbrev pub before : Entry → Entry → Bool
before a b = ltb a.0 b.0

-- The keys ascend, each once.
abbrev pub IsStore : List Entry → Type 0
IsStore = IsSorted before

module _ {A : Type 0} where
  pub drop-take : (n : ℕ) (xs : List A) → drop n (take (suc n) xs) ≡ take 1 (drop n xs)
  drop-take zero xs = refl
  drop-take (suc n) [] = refl
  drop-take (suc n) (x ∷ xs) = drop-take n xs

  pub take-take : (n : ℕ) (xs : List A) → take n (take (suc n) xs) ≡ take n xs
  take-take zero xs = refl
  take-take (suc n) [] = refl
  take-take (suc n) (x ∷ xs) = ap (λ r. x ∷ r) (take-take n xs)

  pub take-all : (n : ℕ) (xs : List A) → drop n xs ≡ [] → take (suc n) xs ≡ take n xs
  take-all zero [] h = refl
  take-all zero (x ∷ xs) h = cc
  take-all (suc n) [] h = refl
  take-all (suc n) (x ∷ xs) h = ap (λ r. x ∷ r) (take-all n xs h)

pub keep-All :
    (q : Entry → Bool) (P : Entry → Type 0) (xs : List Entry) → All P xs → All P (keep q xs)
keep-All q P [] h = tt
keep-All q P (x ∷ xs) (a, h) = ground (arith, keep-All q P xs h)

pub keep-IsStore : (q : Entry → Bool) (xs : List Entry) → IsStore xs → IsStore (keep q xs)
keep-IsStore q [] h = tt
keep-IsStore q (x ∷ xs) (a, h) = elim (Bool-cases (q x)) [
  | inl e ↦ rw e (keep-All q (λ b. before x b ≡ true) xs a, keep-IsStore q xs h)
  | inr e ↦ rw e (keep-IsStore q xs h)
]

-- All of a part that begins with its least key.
keep_from :
    (k : ℕ) (xs : List Entry) → All (λ e. ltb k e.0 ≡ true) xs → keep (λ e. leb k e.0) xs ≡ xs
keep_from k [] h = refl
keep_from k (x ∷ xs) (a, h) = ground (arith, keep_from k xs h)

pub drop-All :
    (P : Entry → Type 0) (n : ℕ) (xs : List Entry) (e : Entry) (rest : List Entry)
    → All P xs
    → drop n xs ≡ e ∷ rest
    → P e
drop-All P zero [] e rest h k = cc
drop-All P zero (x ∷ xs) e rest (a, h) k = let same : e ≡ x = cc in rw same a
drop-All P (suc n) [] e rest h k = cc
drop-All P (suc n) (x ∷ xs) e rest (a, h) k = drop-All P n xs e rest h k

-- Keys ascend, so what is left after `n` entries is what is not below its first key.
pub keep-drop :
    (n : ℕ) (xs : List Entry) (e : Entry) (rest : List Entry)
    → IsStore xs
    → drop n xs ≡ e ∷ rest
    → keep (λ x. leb e.0 x.0) xs ≡ e ∷ rest
keep-drop zero [] e rest h k = k
keep-drop zero (x ∷ xs) e rest (a, h) k =
    let same : e ≡ x = cc in
    let above : All (λ b. before e b ≡ true) xs = rw same a in
    ground (arith, keep_from e.0 xs above, same, k)
keep-drop (suc n) [] e rest h k = k
keep-drop (suc n) (x ∷ xs) e rest (a, h) k =
    let small = drop-All (λ b. before x b ≡ true) n xs e rest a k in
    ground (arith, small, keep-drop n xs e rest h k)

pub keep-keep :
    (j k end : ℕ) (xs : List Entry)
    → j ≤ k
    → keep (λ x. leb k x.0) (within j end xs) ≡ within k end xs
keep-keep j k end [] h = refl
keep-keep j k end (x ∷ xs) h = ground (arith, keep-keep j k end xs h)

pub keep-holds : (q : Entry → Bool) (xs : List Entry) → All (λ e. q e ≡ true) (keep q xs)
keep-holds q [] = tt
keep-holds q (x ∷ xs) = elim (Bool-cases (q x)) [
  | inl e ↦ rw e (e, keep-holds q xs)
  | inr e ↦ rw e (keep-holds q xs)
]

-- What is left of a range after some of its entries is the range from its first key on.
pub within-drop :
    (n j end : ℕ) (store : List Entry) (e : Entry) (rest : List Entry)
    → IsStore store
    → drop n (within j end store) ≡ e ∷ rest
    → within e.0 end store ≡ e ∷ rest
within-drop n j end store e rest h k =
    let in_range = λ (x : Entry). leb j x.0 && leb x.0 end in
    let holds =
      drop-All (λ x. in_range x ≡ true) n (within j end store) e rest (keep-holds in_range store)
        k in
    sym (keep-keep j e.0 end store (ground (arith, holds)))
    ∙ keep-drop n (within j end store) e rest (keep-IsStore in_range store h) k

-- What a page says of the entries after it.
abbrev pub Tells : List Entry → Bool → Text → Type 0
Tells [] has_more next_key = has_more ≡ false
Tells (e ∷ es) has_more next_key = (has_more ≡ true) × (next_key ≡ to_decimal e.0)

pub page_of-rest :
    (n : ℕ) (es rest : List Entry)
    → drop n es ≡ rest
    → ((page_of n (take (suc n) es)).records ≡ map raw_of (take n es))
      × Tells rest
          (page_of n (take (suc n) es)).has_more
          (page_of n (take (suc n) es)).next_key_text
unfolding page_from
page_of-rest n es [] h = rw (drop-take n es, h, take-all n es h) (refl, refl)
page_of-rest n es (e ∷ rest) h = rw (drop-take n es, h, take-take n es) (refl, (refl, refl))
