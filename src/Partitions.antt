-- ===== src/Partitions.antt =====
-- studio/src/utils/key-decoder.ts: buildPartitionList, the partitions of the rail with their names
-- and counts. A Map keeps the order in which its keys came in; the counts of the server are an
-- object whose keys are the numerals of prefixes, and stand by those prefixes.
pub mod Groups
pub mod Counts
pub mod Listed
use beast_db.Prelude.{
  ℕ, ◌+◌, Bool, true, false, not, ◌&&◌, ◌||◌, Option, none, some, List, [], ◌∷◌, ◌++◌, map, or_else,
  is_some, keep, ltb, ◌==◌, length, if◌then◌else◌,
}
use beast_db.Prelude.Sort.{sort, ascending}
use beast_db.Js.Text.{Text, units, same, starts_with}
use beast_db.Js.Case.{CaseMap}
use beast_db.Types.{UniversalRecord, PartitionMeta}
use beast_db.Keys.Registry.{
  Registries, find, get_partition_meta, get_registered_partitions, generic_prefix, hex_byte,
}
use beast_db.Schema.Infer.{infer_partition_meta}

pub record Group : Type 0 where
  pub label : Text
  pub count : ℕ

-- Map<number, Group>
abbrev pub Groups : Type 0
Groups = List (ℕ × Group)

pub get_group : Groups → ℕ → Option Group
get_group [] p = none
get_group ((q, g) ∷ m) p = if q == p then some g else get_group m p

pub set_group : ℕ → Group → Groups → Groups
set_group p g [] = (p, g) ∷ []
set_group p g ((q, h) ∷ m) = if q == p then (q, g) ∷ m else (q, h) ∷ set_group p g m

-- Record<string, number> | undefined
abbrev pub Tally : Type 0
Tally = Option (List (ℕ × ℕ))

abbrev pub lookup_count : List (ℕ × ℕ) → ℕ → Option ℕ
lookup_count [] p = none
lookup_count ((q, n) ∷ counts) p = if q == p then some n else lookup_count counts p

-- partitionCounts ? (partitionCounts[p] ?? d) : e
abbrev pub counted : Tally → ℕ → ℕ → ℕ → ℕ
counted none p d e = e
counted (some counts) p d e = or_else (lookup_count counts p) d

abbrev pub of_prefix : ℕ → List UniversalRecord → List UniversalRecord
of_prefix p = keep (λ r. r.prefix == p)

pub record Partition : Type 0 where
  pub prefix : ℕ
  pub count : ℕ
  pub label : Text

-- The items of `names` with a label.
label_count : Text → Groups → ℕ
label_count l [] = 0
label_count l ((p, g) ∷ m) = label_count l m + (if same g.label l then 1 else 0)

present : Groups → ℕ × Group → Partition
present m (p, g) = record {
  prefix = p;
  count = g.count;
  label = if ltb 1 (label_count g.label m) then g.label ++ (units " · " ++ hex_byte p) else g.label;
}

module _ ⦃c : CaseMap⦄ (s : Registries) (records : List UniversalRecord) where
  sampled_meta : ℕ → List UniversalRecord → PartitionMeta
  sampled_meta p [] = get_partition_meta s p
  sampled_meta p (r ∷ recs) = infer_partition_meta (r ∷ recs) p

  resolve_meta : ℕ → PartitionMeta
  unfolding sampled_meta
  resolve_meta p =
      if is_some (find s.prefix_registry p) || is_some (find s.inferred_registry p)
      then get_partition_meta s p
      else sampled_meta p (of_prefix p records)

  module _ (counts : Tally) where
    -- The registered partitions.
    add_registered : List (ℕ × PartitionMeta) → Groups → Groups
    add_registered [] m = m
    add_registered ((p, meta) ∷ r) m =
        add_registered r
          (set_group p (record { label = meta.label; count = counted counts p 0 0 }) m)

    -- The partitions that the server counted.
    add_counted : List (ℕ × ℕ) → Groups → Groups
    add_counted [] m = m
    add_counted ((p, n) ∷ es) m = add_counted es (
        if is_some (get_group m p)
        then m
        else set_group p (record { label = (resolve_meta p).label; count = n }) m)

    -- One loaded record: it counts only where the server did not.
    touched : ℕ → Option Group → Group
    touched p (some g) = record {
      label = if starts_with g.label generic_prefix then (resolve_meta p).label else g.label;
      count = elim counts [ none ↦ g.count + 1 | some t ↦ g.count ];
    }
    touched p none = record { label = (resolve_meta p).label; count = counted counts p 1 1 }

    add_records : List UniversalRecord → Groups → Groups
    unfolding touched
    add_records [] m = m
    add_records (r ∷ rs) m =
        add_records rs (set_group r.prefix (touched r.prefix (get_group m r.prefix)) m)

    pub groups : Groups
    unfolding add_registered add_counted add_records set_group get_group resolve_meta
    groups =
        add_records records
          (add_counted (or_else counts []) (add_registered (get_registered_partitions s) []))

    unfoldable pub build_partition_list : List Partition
    unfolding groups present label_count sort hex_byte
    build_partition_list = map (present groups) (sort (ascending (λ e. e.0)) groups)
