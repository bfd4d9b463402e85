-- ===== src/Keys/Registry/Laws.antt =====
-- key-decoder.ts: getPartitionMeta after setPartitionRegistry.
use beast_db.Prelude.{
  ℕ, ◌≡◌, refl, Option, none, some, List, [], ◌∷◌, arith, first, or_else, ◌==◌, if◌then◌else◌,
}
use beast_db.Types.{PartitionConfig, PartitionMeta}
use beast_db.Keys.Registry.{
  Registry, Registries, find, put, put_all, meta_of, set_partition_registry, get_partition_meta,
  generic_meta,
}

-- The last entry of the configuration for a prefix.
abbrev pub last_entry : List PartitionConfig → ℕ → Option PartitionMeta
last_entry [] prefix = none
last_entry (e ∷ entries) prefix = first (last_entry entries prefix) (
    if e.prefix == prefix
    then some (record { label = e.label; color = e.color; description = e.description })
    else none)

find-put :
    (p q : ℕ) (meta : PartitionMeta) (r : Registry)
    → find (put p meta r) q ≡ (if p == q then some meta else find r q)
unfolding find put
find-put p q meta [] = refl
find-put p q meta ((i, m) ∷ r) = ground (arith, find-put p q meta r)

find-put_all :
    (r : Registry) (entries : List PartitionConfig) (q : ℕ)
    → find (put_all r entries) q ≡ first (last_entry entries q) (find r q)
unfolding put_all meta_of
find-put_all r [] q = refl
find-put_all r (e ∷ entries) q =
    ground (
      arith,
      find-put_all (put e.prefix (meta_of e) r) entries q,
      find-put e.prefix q (meta_of e) r,
    )

-- The name of a partition after the server's configuration is set: the last entry for its prefix,
-- else the inferred name, else the generic one.
pub get_partition_meta-set_partition_registry :
    (s : Registries) (entries : List PartitionConfig) (prefix : ℕ)
    → get_partition_meta (set_partition_registry entries s) prefix
      ≡ or_else
          (first (last_entry entries prefix) (find s.inferred_registry prefix))
          (generic_meta prefix)
unfolding get_partition_meta set_partition_registry
get_partition_meta-set_partition_registry s entries prefix =
    ground (arith, find-put_all [] entries prefix)
