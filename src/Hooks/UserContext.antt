-- ===== src/Hooks/UserContext.antt =====
-- studio/src/hooks/useUserContext.ts: the collections in which a user has records. One scan for each
-- partition is under way at once, and the hook goes on when all have settled; a scan that fails is
-- `none`. The partitions of the counts are in ascending order, as the integer keys of an object.
pub mod Collected
use mathlib.Core.Option
use beast_db.Prelude.{
  ℕ, Bool, true, false, not, ◌&&◌, Option, none, some, List, [], ◌∷◌, map, or_else, keep, ltb, ◌==◌,
  if◌then◌else◌,
}
use beast_db.Prelude.Sort.{sort, ascending}
use beast_db.Js.Text.{Text, starts_with}
use beast_db.Js.Case.{CaseMap}
use beast_db.Js.BigInt.{to_decimal}
use beast_db.Types.{UniversalRecord, PartitionMeta}
use beast_db.Keys.Registry.{Registries, get_partition_meta, generic_prefix}
use beast_db.Schema.Infer.{infer_collection_name}
use beast_db.Hooks.Ranges.{user_base, user_end}

pub record UserCollection : Type 0 where
  pub prefix : ℕ
  pub label : Text
  pub color : Text
  pub records : List UniversalRecord
  pub loading : Bool

pub record Context : Type 0 where
  pub collections : List UserCollection
  pub ready : Bool

-- onScanRange(start, end)
pub record Scan : Type 0 where
  pub prefix : ℕ
  pub start : Text
  pub end : Text

-- The partitions that have records, less that of the user's own identity.
unfoldable pub other_prefixes : ℕ → List (ℕ × ℕ) → List ℕ
other_prefixes identity counts =
    map (λ e. e.0) (keep (λ e. not (e.0 == identity) && ltb 0 e.1) counts)

placeholder : Registries → ℕ → UserCollection
placeholder s prefix = record {
  prefix = prefix;
  label = (get_partition_meta s prefix).label;
  color = (get_partition_meta s prefix).color;
  records = [];
  loading = true;
}

unfoldable pub scan_of : ℕ → ℕ → Scan
unfolding user_base user_end to_decimal
scan_of user_hash prefix = record {
  prefix = prefix;
  start = to_decimal (user_base prefix user_hash);
  end = to_decimal (user_end prefix user_hash);
}

begin_scans : Registries → ℕ → List ℕ → Context → Context × List Scan
unfolding placeholder scan_of
begin_scans s user_hash [] x = (record x { ready = true }, [])
begin_scans s user_hash (p ∷ ps) x = (
  record { collections = map (placeholder s) (p ∷ ps); ready = false },
  map (scan_of user_hash) (p ∷ ps),
)

-- load, up to its await: the state, and the scans that are begun.
unfoldable pub load :
    Registries → Option ℕ → ℕ → Option (List (ℕ × ℕ)) → Context → Context × List Scan
unfolding begin_scans other_prefixes
load s none identity counts x = (x, [])
load s (some user_hash) identity none x = (x, [])
load s (some user_hash) identity (some counts) x =
    begin_scans s user_hash (other_prefixes identity counts) x

abbrev pub has_records : UserCollection → Bool
has_records x = elim x.records [ [] ↦ false | r ∷ rs ↦ true ]

module _ ⦃c : CaseMap⦄ (s : Registries) where
  -- meta.label.startsWith("Collection ") && inferred ? inferred : meta.label
  chosen_label : Text → Option Text → Text
  chosen_label label none = label
  chosen_label label (some []) = label
  chosen_label label (some (u ∷ w)) = if starts_with label generic_prefix then u ∷ w else label

  scanned : (ℕ → Option (List UniversalRecord)) → ℕ → UserCollection
  unfolding chosen_label
  scanned answer prefix =
      let meta = get_partition_meta s prefix in
      let name = or_else (Option.map infer_collection_name (answer prefix)) none in
      record {
        prefix = prefix;
        label = chosen_label meta.label name;
        color = meta.color;
        records = or_else (answer prefix) [];
        loading = false;
      }

  -- load, from its await on; `answer` says what the scan of each partition came to.
  unfoldable pub finish_load : List ℕ → (ℕ → Option (List UniversalRecord)) → Context
  unfolding scanned sort
  finish_load prefixes answer = record {
    collections =
        sort (ascending (λ x. x.prefix)) (keep has_records (map (scanned answer) prefixes));
    ready = true;
  }
