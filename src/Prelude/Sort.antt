-- ===== src/Prelude/Sort.antt =====
-- Array.prototype.sort by a numeric key, as a stable insertion sort. ECMAScript fixes the result
-- (the stable order), and not the algorithm.
use Prim.Native.Nat.{ℕ}
use mathlib.Core.Path.{◌≡◌, refl, ap, ◌∙◌}
use mathlib.Core.Bool.{Bool, true, false, ◌||◌}
use mathlib.Core.Logic.{inl, inr}
use mathlib.Core.List.{List, [], ◌∷◌, Perm}
use mathlib.Core.List.Perm
use native.Mathlib.Omega.{arith}
use beast_db.Prelude.Tests.{leb, Bool-cases, if◌then◌else◌}
use beast_db.Prelude.Lists.{All, any}

-- An order by a test: `before a b` where `a` may stand in front of `b`.
module _ {ℓ} {A : Type ℓ} (before : A → A → Bool) where
  insert : A → List A → List A
  insert a [] = a ∷ []
  insert a (b ∷ xs) = if before a b then a ∷ b ∷ xs else b ∷ insert a xs

  unfoldable pub sort : List A → List A
  unfolding insert
  sort [] = []
  sort (a ∷ xs) = insert a (sort xs)

  abbrev pub IsSorted : List A → Type 0
  IsSorted [] = Unit
  IsSorted (a ∷ xs) = All (λ b. before a b ≡ true) xs × IsSorted xs

  insert-All {κ} : (P : A → Type κ) (a : A) (xs : List A) → P a → All P xs → All P (insert a xs)
  unfolding insert
  insert-All P a [] p h = (p, tt)
  insert-All P a (b ∷ xs) p (q, h) = elim (Bool-cases (before a b)) [
    | inl e ↦ rw e (p, (q, h))
    | inr e ↦ rw e (q, insert-All P a xs p h)
  ]

  -- What holds of every item holds of every sorted item.
  pub sort-All {κ} : (P : A → Type κ) (xs : List A) → All P xs → All P (sort xs)
  unfolding sort
  sort-All P [] h = tt
  sort-All P (a ∷ xs) (p, h) = insert-All P a (sort xs) p (sort-All P xs h)

  insert-All_back {κ} :
      (P : A → Type κ) (a : A) (xs : List A) → All P (insert a xs) → P a × All P xs
  unfolding insert
  insert-All_back P a [] h = h
  insert-All_back P a (b ∷ xs) h = elim (Bool-cases (before a b)) [
    | inl e ↦ rw (e, insert) at h
    | inr e ↦
        let k : P b × All P (insert a xs) = rw (e, insert) at h in
        let (p, rest) = insert-All_back P a xs k.1 in (p, (k.0, rest))
  ]

  -- What holds of every sorted item holds of every item.
  pub sort-All_back {κ} : (P : A → Type κ) (xs : List A) → All P (sort xs) → All P xs
  unfolding sort
  sort-All_back P [] h = tt
  sort-All_back P (a ∷ xs) h =
      let (p, k) = insert-All_back P a (sort xs) h in (p, sort-All_back P xs k)

  any-insert : (f : A → Bool) (a : A) (xs : List A) → any f (insert a xs) ≡ (f a || any f xs)
  unfolding insert
  any-insert f a [] = refl
  any-insert f a (b ∷ xs) = elim (Bool-cases (before a b)) [
    | inl e ↦ rw e
    | inr e ↦ rw e (ground (arith, any-insert f a xs))
  ]

  pub any-sort : (f : A → Bool) (xs : List A) → any f (sort xs) ≡ any f xs
  unfolding sort
  any-sort f [] = refl
  any-sort f (a ∷ xs) = any-insert f a (sort xs) ∙ ap (λ b. f a || b) (any-sort f xs)

  -- A symmetric relation between any two items.
  abbrev pub Apart : (A → A → Type 0) → List A → Type 0
  Apart R [] = Unit
  Apart R (a ∷ xs) = All (R a) xs × Apart R xs

  module _ (R : A → A → Type 0) (symm : (a b : A) → R a b → R b a) where
    insert-Apart : (a : A) (xs : List A) → All (R a) xs → Apart R xs → Apart R (insert a xs)
    unfolding insert
    insert-Apart a [] h k = (tt, tt)
    insert-Apart a (b ∷ xs) (h, hs) (k, ks) = elim (Bool-cases (before a b)) [
      | inl e ↦ rw e ((h, hs), (k, ks))
      | inr e ↦ rw e (insert-All (R b) a xs (symm a b h) k, insert-Apart a xs hs ks)
    ]

    pub sort-Apart : (xs : List A) → Apart R xs → Apart R (sort xs)
    unfolding sort
    sort-Apart [] h = tt
    sort-Apart (a ∷ xs) (h, k) = insert-Apart a (sort xs) (sort-All (R a) xs h) (sort-Apart xs k)

  insert-perm : (a : A) (xs : List A) → Perm (insert a xs) (a ∷ xs)
  unfolding insert
  insert-perm a [] = Perm.rfl
  insert-perm a (b ∷ xs) = elim (Bool-cases (before a b)) [
    | inl e ↦ rw e Perm.rfl
    | inr e ↦ rw e (Perm.trans (Perm.cons b (insert-perm a xs)) (Perm.swap a b xs))
  ]

  pub sort-perm : (xs : List A) → Perm (sort xs) xs
  unfolding sort
  sort-perm [] = Perm.rfl
  sort-perm (a ∷ xs) = Perm.trans (insert-perm a (sort xs)) (Perm.cons a (sort-perm xs))

module _ {ℓ} {A : Type ℓ} (before : A → A → Bool)
    (trans : (a b c : A) → before a b ≡ true → before b c ≡ true → before a c ≡ true)
    (total : (a b : A) → before a b ≡ false → before b a ≡ true) where
  All-trans :
      (a b : A) (xs : List A)
      → before a b ≡ true
      → All (λ c. before b c ≡ true) xs
      → All (λ c. before a c ≡ true) xs
  All-trans a b [] h k = tt
  All-trans a b (c ∷ xs) h (p, k) = (trans a b c h p, All-trans a b xs h k)

  insert-IsSorted :
      (a : A) (xs : List A) → IsSorted before xs → IsSorted before (insert before a xs)
  unfolding insert
  insert-IsSorted a [] h = (tt, tt)
  insert-IsSorted a (b ∷ xs) (p, h) = elim (Bool-cases (before a b)) [
    | inl e ↦ rw e ((e, All-trans a b xs e p), (p, h))
    | inr e ↦
        rw e
          (insert-All before (λ c. before b c ≡ true) a xs (total a b e) p, insert-IsSorted a xs h)
  ]

  pub sort-IsSorted : (xs : List A) → IsSorted before (sort before xs)
  unfolding sort
  sort-IsSorted [] = tt
  sort-IsSorted (a ∷ xs) = insert-IsSorted a (sort before xs) (sort-IsSorted xs)

module _ {ℓ} {A : Type ℓ} (key : A → ℕ) where
  -- (a, b) => key(a) - key(b), and (a, b) => key(b) - key(a)
  abbrev pub ascending : A → A → Bool
  ascending a b = leb (key a) (key b)

  abbrev pub descending : A → A → Bool
  descending a b = leb (key b) (key a)

  ascending_trans : (a b c : A) → ascending a b ≡ true → ascending b c ≡ true → ascending a c ≡ true
  ascending_trans a b c h k = ground arith

  ascending_total : (a b : A) → ascending a b ≡ false → ascending b a ≡ true
  ascending_total a b h = ground arith

  pub sort-ascending : (xs : List A) → IsSorted ascending (sort ascending xs)
  sort-ascending = sort-IsSorted ascending ascending_trans ascending_total

  pub sort-descending : (xs : List A) → IsSorted descending (sort descending xs)
  sort-descending =
      sort-IsSorted descending (λ a b c h k. ascending_trans c b a k h)
        (λ a b h. ascending_total b a h)
