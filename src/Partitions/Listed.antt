-- ===== src/Partitions/Listed.antt =====
-- buildPartitionList: the list that it returns.
use mathlib.Core.Option
use beast_db.Prelude.{
  ℕ, ◌<◌, ◌≡◌, ◌≢◌, refl, ap, sym, ◌∙◌, Bool, true, ◌||◌, Option, none, some, List, [], ◌∷◌, map,
  arith, or_else, is_some, any, All, ◌==◌, Bool-cases, inl, inr,
}
use beast_db.Prelude.Sort.{
  sort, ascending, any-sort, sort-All, sort-Apart, sort-ascending, IsSorted, Apart,
}
use beast_db.Js.Case.{CaseMap}
use beast_db.Types.{UniversalRecord, PartitionMeta}
use beast_db.Keys.Registry.{Registries, find, get_registered_partitions}
use beast_db.Partitions.{
  Group, Groups, get_group, Tally, Partition, present, add_registered, add_counted, add_records,
  groups, build_partition_list,
}
use beast_db.Partitions.Groups.{Distinct, set_group-Distinct, get_group_self}
use beast_db.Partitions.Counts.{expected, count_in-groups}

module _ ⦃c : CaseMap⦄ (s : Registries) (records : List UniversalRecord) (counts : Tally) where
  registered-Distinct :
      (r : List (ℕ × PartitionMeta)) (m : Groups)
      → Distinct m
      → Distinct (add_registered s records counts r m)
  unfolding add_registered
  registered-Distinct [] m h = h
  registered-Distinct ((p, meta) ∷ r) m h = registered-Distinct r _ (set_group-Distinct p _ m h)

  counted-Distinct :
      (es : List (ℕ × ℕ)) (m : Groups) → Distinct m → Distinct (add_counted s records counts es m)
  unfolding add_counted
  counted-Distinct [] m h = h
  counted-Distinct ((p, n) ∷ es) m h = elim (Bool-cases (is_some (get_group m p))) [
    | inl e ↦ rw e (counted-Distinct es m h)
    | inr e ↦ rw e (counted-Distinct es _ (set_group-Distinct p _ m h))
  ]

  records-Distinct :
      (rs : List UniversalRecord) (m : Groups)
      → Distinct m
      → Distinct (add_records s records counts rs m)
  unfolding add_records
  records-Distinct [] m h = h
  records-Distinct (r ∷ rs) m h = records-Distinct rs _ (set_group-Distinct r.prefix _ m h)

  groups-Distinct : Distinct (groups s records counts)
  unfolding groups
  groups-Distinct = records-Distinct records _ (
      counted-Distinct (or_else counts []) _
        (registered-Distinct (get_registered_partitions s) [] tt))

abbrev by_prefix : ℕ × Group → ℕ × Group → Bool
by_prefix = ascending (λ e. e.0)

abbrev pub Ascends : List Partition → Type 0
Ascends [] = Unit
Ascends (x ∷ xs) = All (λ y. x.prefix < y.prefix) xs × Ascends xs

Apart-Distinct : (m : Groups) → Distinct m → Apart by_prefix (λ a b. b.0 ≢ a.0) m
Apart-Distinct [] h = tt
Apart-Distinct (e ∷ m) (h, k) = (h, Apart-Distinct m k)

present-All :
    (m : Groups) (e : ℕ × Group) (es : Groups)
    → All (λ f. by_prefix e f ≡ true) es
    → All (λ f. f.0 ≢ e.0) es
    → All (λ y. e.0 < y.prefix) (map (present m) es)
unfolding present
present-All m e [] h k = tt
present-All m e (f ∷ es) (h, hs) (k, ks) = (ground arith, present-All m e es hs ks)

present-Ascends :
    (m es : Groups)
    → IsSorted by_prefix es
    → Apart by_prefix (λ a b. b.0 ≢ a.0) es
    → Ascends (map (present m) es)
present-Ascends m [] h k = tt
present-Ascends m ((p, g) ∷ es) (h, hs) (k, ks) =
    (unfold present in present-All m (p, g) es h k, present-Ascends m es hs ks)

any-present :
    (m es : Groups) (p : ℕ) → any (λ x. x.prefix == p) (map (present m) es) ≡ any (λ e. e.0 == p) es
unfolding present
any-present m [] p = refl
any-present m ((q, g) ∷ es) p = ap (λ b. (q == p) || b) (any-present m es p)

any-get_group : (m : Groups) (p : ℕ) → any (λ e. e.0 == p) m ≡ is_some (get_group m p)
unfolding get_group
any-get_group [] p = refl
any-get_group ((q, g) ∷ m) p = ground (arith, any-get_group m p)

is_some-map : (o : Option Group) → is_some o ≡ is_some (Option.map (λ g. g.count) o)
is_some-map none = refl
is_some-map (some g) = refl

-- The count of a listed partition, by what the table gives its prefix.
counted-All :
    (m es : Groups) (want : ℕ → Option ℕ)
    → ((p : ℕ) → Option.map (λ g. g.count) (get_group m p) ≡ want p)
    → All (λ e. get_group m e.0 ≡ some e.1) es
    → All (λ x. want x.prefix ≡ some x.count) (map (present m) es)
unfolding present
counted-All m [] want h k = tt
counted-All m ((p, g) ∷ es) want h (k, ks) = (ground (arith, h p), counted-All m es want h ks)

-- The prefixes ascend, so each is listed once; a prefix is listed exactly when it is expected, and
-- with the count that is expected.
pub record IsPartitionList (want : ℕ → Option ℕ) (list : List Partition) : Type 0 where
  pub ascends : Ascends list
  pub lists : (p : ℕ) → any (λ x. x.prefix == p) list ≡ is_some (want p)
  pub counts : All (λ x. want x.prefix ≡ some x.count) list

-- The partition list of the Studio, whatever its registries, the loaded records and the server's
-- counts: the prefixes ascend, exactly the expected partitions are listed, and each has its
-- expected count.
pub build_partition_list-IsPartitionList :
    ⦃c : CaseMap⦄ (s : Registries) (records : List UniversalRecord) (counts : Tally)
    → IsPartitionList
        (λ p. expected counts (is_some (find s.prefix_registry p)) records p)
        (build_partition_list s records counts)
unfolding build_partition_list
build_partition_list-IsPartitionList s records counts =
    let m = groups s records counts in
    let distinct = groups-Distinct s records counts in
    record {
      ascends = present-Ascends m (sort by_prefix m) (sort-ascending (λ e. e.0) m) (
          sort-Apart by_prefix (λ a b. b.0 ≢ a.0) (λ a b h e. h (sym e)) m
            (Apart-Distinct m distinct));
      lists = λ p.
          any-present m (sort by_prefix m) p
          ∙ (any-sort by_prefix (λ e. e.0 == p) m
              ∙ (any-get_group m p
                  ∙ (is_some-map (get_group m p)
                      ∙ ap is_some (count_in-groups s records counts p))));
      counts =
          counted-All m (sort by_prefix m) _ (count_in-groups s records counts)
            (sort-All by_prefix (λ e. get_group m e.0 ≡ some e.1) m (get_group_self m distinct));
    }
