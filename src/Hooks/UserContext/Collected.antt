-- ===== src/Hooks/UserContext/Collected.antt =====
-- useUserContext.ts: the collections, when the scans have settled.
use beast_db.Prelude.{
  ℕ, ◌≡◌, refl, ap, ◌∙◌, Bool, true, false, ◌&&◌, ◌||◌, Option, List, [], ◌∷◌, map, or_else, keep,
  any, All, ◌==◌, if◌then◌else◌, arith, Bool-cases, inl, inr,
}
use beast_db.Prelude.Sort.{ascending, sort-All, any-sort, sort-ascending, IsSorted}
use beast_db.Js.Case.{CaseMap}
use beast_db.Types.{UniversalRecord}
use beast_db.Keys.Registry.{Registries}
use beast_db.Hooks.UserContext.{UserCollection, has_records, scanned, finish_load}

abbrev pub found : (ℕ → Option (List UniversalRecord)) → ℕ → Bool
found answer p = elim (or_else (answer p) []) [ [] ↦ false | r ∷ rs ↦ true ]

-- The collections ascend; those of the scanned partitions are there in which records were found,
-- each with all of its records, and none is still loading.
pub record IsCollected (prefixes : List ℕ) (answer : ℕ → Option (List UniversalRecord))
    (list : List UserCollection) : Type 0 where
  pub ascends : IsSorted (ascending (λ x. x.prefix)) list
  pub lists :
      (p : ℕ) → any (λ x. x.prefix == p) list ≡ (any (λ q. q == p) prefixes && found answer p)
  pub holds : All (λ x. x.records ≡ or_else (answer x.prefix) []) list
  pub settled : All (λ x. (has_records x ≡ true) × (x.loading ≡ false)) list

module _ ⦃c : CaseMap⦄ (s : Registries) (answer : ℕ → Option (List UniversalRecord)) where
  keep-All :
      (P : UserCollection → Type 0) (prefixes : List ℕ)
      → ((p : ℕ) → has_records (scanned s answer p) ≡ true → P (scanned s answer p))
      → All P (keep has_records (map (scanned s answer) prefixes))
  keep-All P [] h = tt
  keep-All P (p ∷ ps) h = elim (Bool-cases (has_records (scanned s answer p))) [
    | inl e ↦ rw e (h p e, keep-All P ps h)
    | inr e ↦ rw e (keep-All P ps h)
  ]

  any-if :
      (b : Bool) (f : UserCollection → Bool) (x : UserCollection) (xs : List UserCollection)
      → any f (if b then x ∷ xs else xs) ≡ ((b && f x) || any f xs)
  any-if true f x xs = refl
  any-if false f x xs = refl

  meet : (a b : Bool) → ((a && true) || (b && a)) ≡ a
  meet true b = refl
  meet false true = refl
  meet false false = refl

  apart : (a b : Bool) → ((a && false) || b) ≡ b
  apart true b = refl
  apart false b = refl

  any-keep :
      (p : ℕ) (prefixes : List ℕ)
      → any (λ x. x.prefix == p) (keep has_records (map (scanned s answer) prefixes))
        ≡ (any (λ q. q == p) prefixes && found answer p)
  unfolding scanned
  any-keep p [] = refl
  any-keep p (q ∷ qs) =
      any-if (found answer q) (λ x. x.prefix == p) (scanned s answer q) _
      ∙ (ap (λ b. (found answer q && (q == p)) || b) (any-keep p qs) ∙ elim (Bool-cases (q == p)) [
        | inl e ↦
            let same : q ≡ p = ground arith in
            rw (e, ap (found answer) same) (meet (found answer p) (any (λ q. q == p) qs))
        | inr e ↦ rw e (apart (found answer q) _)
      ])

  -- However many scans fail, what is shown in the end are the partitions in which records of the
  -- user were found, in ascending order, each with the records of its own scan.
  pub finish_load-IsCollected :
      (prefixes : List ℕ) → IsCollected prefixes answer (finish_load s prefixes answer).collections
  unfolding finish_load
  finish_load-IsCollected prefixes =
      let kept = keep has_records (map (scanned s answer) prefixes) in
      let order = ascending (λ (x : UserCollection). x.prefix) in
      record {
        ascends = sort-ascending (λ x. x.prefix) kept;
        lists = λ p. any-sort order (λ x. x.prefix == p) kept ∙ any-keep p prefixes;
        holds = sort-All order _ kept (keep-All _ prefixes (λ p h. unfold scanned in refl));
        settled = sort-All order _ kept (keep-All _ prefixes (λ p h. unfold scanned in (h, refl)));
      }
