-- ===== src/Keys/Registry.antt =====
-- studio/src/utils/key-decoder.ts: the two registries of partitions, which the module keeps as
-- variables, and the name of a partition. A registry has its prefixes in ascending order, as the
-- integer properties of an object.
pub mod Laws
use Prim.Native.Nat.{compare, Ordering}
use beast_db.Prelude.{
  ℕ, ◌%◌, Option, none, some, List, [], ◌∷◌, ◌++◌, map, or_else, first, ltb, ◌==◌, if◌then◌else◌,
}
use beast_db.Prelude.Sort.{sort, ascending}
use beast_db.Js.Text.{Text, units, pad_start}
use beast_db.Js.Case.{upper_unit}
use beast_db.Js.Radix.{to_radix}
use beast_db.Types.{PartitionConfig, PartitionMeta}

abbrev pub Registry : Type 0
Registry = List (ℕ × PartitionMeta)

-- registry[prefix]
unfoldable pub find : Registry → ℕ → Option PartitionMeta
find [] prefix = none
find ((p, meta) ∷ r) prefix = if p == prefix then some meta else find r prefix

-- registry[prefix] = meta
unfoldable pub put : ℕ → PartitionMeta → Registry → Registry
put prefix meta [] = (prefix, meta) ∷ []
put prefix meta ((p, m) ∷ r) =
    if p == prefix
    then (prefix, meta) ∷ r
    else if ltb prefix p
    then (prefix, meta) ∷ (p, m) ∷ r
    else (p, m) ∷ put prefix meta r

pub record Registries : Type 0 where
  pub prefix_registry : Registry
  pub inferred_registry : Registry

abbrev pub no_registries : Registries
no_registries = record { prefix_registry = []; inferred_registry = [] }

meta_of : PartitionConfig → PartitionMeta
meta_of e = record { label = e.label; color = e.color; description = e.description }

put_all : Registry → List PartitionConfig → Registry
put_all next [] = next
put_all next (e ∷ entries) = put_all (put e.prefix (meta_of e) next) entries

unfoldable pub set_partition_registry : List PartitionConfig → Registries → Registries
unfolding put put_all meta_of
set_partition_registry entries s = record s { prefix_registry = put_all [] entries }

unfoldable pub set_inferred_partition_registry : Registry → Registries → Registries
set_inferred_partition_registry entries s = record s { inferred_registry = entries }

-- The colours of getDeterministicColor (schema-inference.ts).
unfoldable pub palette : ℕ → Text
palette i =
    if i == 0
    then units "emerald"
    else if i == 1
    then units "purple"
    else if i == 2
    then units "cyan"
    else if i == 3
    then units "blue"
    else if i == 4
    then units "indigo"
    else if i == 5
    then units "rose"
    else if i == 6
    then units "amber"
    else if i == 7
    then units "teal"
    else if i == 8
    then units "violet"
    else if i == 9
    then units "sky"
    else units "orange"

unfoldable pub get_deterministic_color : ℕ → Text
unfolding palette
get_deterministic_color prefix = palette (prefix % 11)

-- prefix.toString(16).padStart(2, "0").toUpperCase()
unfoldable pub hex_byte : ℕ → Text
unfolding pad_start to_radix upper_unit
hex_byte prefix = map upper_unit (pad_start 2 (to_radix 16 prefix))

abbrev pub generic_prefix : Text
generic_prefix = units "Collection "

unfoldable pub generic_meta : ℕ → PartitionMeta
unfolding hex_byte get_deterministic_color
generic_meta prefix = record {
  label = generic_prefix ++ hex_byte prefix;
  color = get_deterministic_color prefix;
  description = none;
}

unfoldable pub get_partition_meta : Registries → ℕ → PartitionMeta
unfolding find generic_meta
get_partition_meta s prefix =
    or_else (first (find s.prefix_registry prefix) (find s.inferred_registry prefix))
      (generic_meta prefix)

unfoldable pub get_registered_partitions : Registries → List (ℕ × PartitionMeta)
unfolding sort
get_registered_partitions s = sort (ascending (λ e. e.0)) s.prefix_registry
