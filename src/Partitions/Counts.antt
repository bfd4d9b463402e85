-- ===== src/Partitions/Counts.antt =====
-- buildPartitionList: the count of each partition.
use mathlib.Core.Option
use beast_db.Prelude.{
  ℕ, ◌+◌, ◌≡◌, refl, ap, ◌∙◌, Bool, true, false, ◌||◌, Option, none, some, List, [], ◌∷◌, arith,
  first, or_else, is_some, any, length, ◌==◌, ==_iff, if◌then◌else◌, Bool-cases, Option-cases, inl,
  inr,
}
use beast_db.Prelude.Sort.{ascending, any-sort}
use beast_db.Js.Case.{CaseMap}
use beast_db.Types.{UniversalRecord, PartitionMeta}
use beast_db.Keys.Registry.{Registry, Registries, find, get_registered_partitions}
use beast_db.Partitions.{
  Group, Groups, get_group, set_group, Tally, lookup_count, counted, of_prefix, resolve_meta,
  add_registered, add_counted, touched, add_records, groups,
}
use beast_db.Partitions.Groups.{get_group-set_group}

abbrev pub occurrences : ℕ → List UniversalRecord → ℕ
occurrences p records = length (of_prefix p records)

-- The count that a prefix should have; none if it should not be listed.
-- Without the server's counts: the number of loaded records. With them: the server's number; a
-- prefix that it does not count has 0 if it is configured, and 1 if a loaded record has it.
abbrev pub expected : Tally → Bool → List UniversalRecord → ℕ → Option ℕ
expected none registered records p =
    if registered || (if occurrences p records == 0 then false else true)
    then some (occurrences p records)
    else none
expected (some counts) registered records p =
    if registered
    then some (or_else (lookup_count counts p) 0)
    else first (lookup_count counts p) (if occurrences p records == 0 then none else some 1)

abbrev count_in : Groups → ℕ → Option ℕ
count_in m p = Option.map (λ g. g.count) (get_group m p)

count_in-set_group :
    (p q : ℕ) (g : Group) (m : Groups)
    → count_in (set_group p g m) q ≡ (if p == q then some g.count else count_in m q)
count_in-set_group p q g m = ground (arith, get_group-set_group p q g m)

abbrev named : ℕ → List (ℕ × PartitionMeta) → Bool
named p = any (λ e. e.0 == p)

if-same : (b : Bool) (o : Option ℕ) → (if b then o else o) ≡ o
if-same true o = refl
if-same false o = refl

registered_step :
    (counts : Tally) (q p : ℕ) (later : Bool) (old new : Option ℕ)
    → new ≡ (if q == p then some (counted counts q 0 0) else old)
    → (if later then some (counted counts p 0 0) else new)
      ≡ (if q == p || later then some (counted counts p 0 0) else old)
registered_step counts q p later old new h = elim (Bool-cases (q == p)) [
  | inl e ↦ let same : q ≡ p = (==_iff q p).0 e in rw (e, h, e, same) (if-same later _)
  | inr e ↦ rw (e, h, e)
]

named-find : (p : ℕ) (r : Registry) → named p r ≡ is_some (find r p)
unfolding find
named-find p [] = refl
named-find p ((q, meta) ∷ r) = ground (arith, named-find p r)

named-registered :
    (p : ℕ) (s : Registries)
    → named p (get_registered_partitions s) ≡ is_some (find s.prefix_registry p)
unfolding get_registered_partitions
named-registered p s =
    any-sort (ascending (λ e. e.0)) (λ e. e.0 == p) s.prefix_registry
    ∙ named-find p s.prefix_registry

module _ ⦃c : CaseMap⦄ (s : Registries) (records : List UniversalRecord) where
  count_in-add_registered :
      (counts : Tally) (r : List (ℕ × PartitionMeta)) (m : Groups) (p : ℕ)
      → count_in (add_registered s records counts r m) p
        ≡ (if named p r then some (counted counts p 0 0) else count_in m p)
  unfolding add_registered
  count_in-add_registered counts [] m p = refl
  count_in-add_registered counts ((q, meta) ∷ r) m p =
      let g : Group = record { label = meta.label; count = counted counts q 0 0 } in
      count_in-add_registered counts r (set_group q g m) p
      ∙ registered_step counts q p (named p r) (count_in m p) _ (count_in-set_group q p g m)

  count_in-add_counted :
      (counts : Tally) (es : List (ℕ × ℕ)) (m : Groups) (p : ℕ)
      → count_in (add_counted s records counts es m) p ≡ first (count_in m p) (lookup_count es p)
  unfolding add_counted
  count_in-add_counted counts [] m p = ground arith
  count_in-add_counted counts ((q, n) ∷ es) m p = elim (Option-cases (get_group m q)) [
    | inl e ↦
        let g : Group = record { label = (resolve_meta s records q).label; count = n } in
        rw e (
          count_in-add_counted counts es (set_group q g m) p
          ∙ ground (arith, count_in-set_group q p g m, ==_iff q p))
    | inr (g, e) ↦ rw e (count_in-add_counted counts es m p ∙ ground (arith, ==_iff q p))
  ]

  count_in-add_records-none :
      (rs : List UniversalRecord) (m : Groups) (p : ℕ)
      → count_in (add_records s records none rs m) p ≡ (
          if occurrences p rs == 0
          then count_in m p
          else some (or_else (count_in m p) 0 + occurrences p rs))
  unfolding add_records touched
  count_in-add_records-none [] m p = refl
  count_in-add_records-none (r ∷ rs) m p =
      let g = touched s records none r.prefix (get_group m r.prefix) in
      count_in-add_records-none rs (set_group r.prefix g m) p
      ∙ ground (arith, count_in-set_group r.prefix p g m)

  count_in-add_records-some :
      (counts : List (ℕ × ℕ)) (rs : List UniversalRecord) (m : Groups) (p : ℕ)
      → count_in (add_records s records (some counts) rs m) p
        ≡ first
            (count_in m p)
            (if occurrences p rs == 0 then none else some (or_else (lookup_count counts p) 1))
  unfolding add_records touched
  count_in-add_records-some counts [] m p = ground arith
  count_in-add_records-some counts (r ∷ rs) m p =
      let g = touched s records (some counts) r.prefix (get_group m r.prefix) in
      count_in-add_records-some counts rs (set_group r.prefix g m) p
      ∙ ground (arith, count_in-set_group r.prefix p g m)

  groups_step :
      (counts : Tally) (p : ℕ)
      → count_in
          (add_counted s records counts
            (or_else counts [])
            (add_registered s records counts (get_registered_partitions s) []))
          p
        ≡ first
            (if is_some (find s.prefix_registry p) then some (counted counts p 0 0) else none)
            (lookup_count (or_else counts []) p)
  groups_step counts p =
      count_in-add_counted counts (or_else counts []) _ p
      ∙ (ap (λ o. first o (lookup_count (or_else counts []) p))
            (count_in-add_registered counts (get_registered_partitions s) [] p)
          ∙ unfold get_group in rw (named-registered p s))

  -- The count of each prefix in the table is the expected one.
  pub count_in-groups :
      (counts : Tally) (p : ℕ)
      → count_in (groups s records counts) p
        ≡ expected counts (is_some (find s.prefix_registry p)) records p
  unfolding groups
  count_in-groups none p =
      count_in-add_records-none records _ p ∙ ground (arith, groups_step none p)
  count_in-groups (some counts) p =
      count_in-add_records-some counts records _ p ∙ ground (arith, groups_step (some counts) p)
