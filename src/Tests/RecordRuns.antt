-- ===== src/Tests/RecordRuns.antt =====
-- Runs of schema-inference.ts, data-parser.ts and the partition list.
use beast_db.Prelude.{◌≡◌, refl, true, false, some, [], ◌∷◌, ◌++◌, map, is_some}
use beast_db.Js.Text.{units, join, trim, starts_with, includes, split}
use beast_db.Js.Json.{str, obj, end, field}
use beast_db.Types.{token}
use beast_db.Schema.Fields.{name_from_fields}
use beast_db.Schema.Infer.{infer_collection_name, name_from_record}
use beast_db.Schema.Infer.Scores.{IsBest, infer_collection_name-IsBest}
use beast_db.Keys.Registry.{find}
use beast_db.Payload.Attributes.{is_redacted, summarise, is_unsummarised}
use beast_db.Payload.Attributes.Redaction.{summarise_nested_secret}
use beast_db.Payload.Parse.{parse_universal_record}
use beast_db.Payload.Parse.Shape.{IsWellFormed, parse_universal_record-IsWellFormed}
use beast_db.Payload.Parse.Token.{parse_universal_record-join}
use beast_db.Partitions.{build_partition_list}
use beast_db.Partitions.Counts.{expected}
use beast_db.Partitions.Listed.{IsPartitionList, build_partition_list-IsPartitionList}
use beast_db.Tests.Samples.{ascii_case, engine, film_text, user_record, blank_record, no_names}

infer_collection_name_run :
    infer_collection_name (user_record ∷ blank_record ∷ []) ≡ some (units "Users")
unfolding infer_collection_name trim name_from_record name_from_fields
infer_collection_name_run = refl

infer_collection_name-IsBest_example : IsBest (units "Users") (user_record ∷ blank_record ∷ [])
infer_collection_name-IsBest_example =
    infer_collection_name-IsBest (user_record ∷ blank_record ∷ []) (units "Users")
      infer_collection_name_run

parse_universal_record-IsWellFormed_example :
    IsWellFormed film_text (parse_universal_record engine no_names (units "17") (some film_text))
parse_universal_record-IsWellFormed_example =
    parse_universal_record-IsWellFormed engine no_names (units "17") film_text

parse_universal_record-token :
    (parse_universal_record engine no_names (units "17") (some (units " a|b|c "))).format ≡ token
unfolding parse_universal_record starts_with includes split
parse_universal_record-token = refl

parse_universal_record-join_example :
    join (b'|' ∷ []) (
      map
        (λ a. a.value)
        (parse_universal_record engine no_names (units "17") (some (units " a|b|c "))).attributes)
    ≡ trim (units " a|b|c ")
parse_universal_record-join_example =
    parse_universal_record-join engine no_names (units "17") (units " a|b|c ")
      parse_universal_record-token

is_redacted_runs :
    (is_redacted (units "user") ≡ false)
    × (is_unsummarised (units "user") ≡ false)
    × (is_redacted (units "passwordHash") ≡ true)
unfolding is_redacted is_unsummarised
is_redacted_runs = (refl, refl, refl)

summarise_nested_secret_example :
    summarise ((units "user", obj (field (units "passwordHash") (str (units "5f4d")) end)) ∷ []) []
    ≡ record {
      key = units "user" ++ b'.' ∷ units "passwordHash";
      value = units "5f4d";
      type = units "string";
    }
      ∷ []
summarise_nested_secret_example =
    summarise_nested_secret (units "user") (units "passwordHash") (units "5f4d") is_redacted_runs.0
      is_redacted_runs.1 is_redacted_runs.2

build_partition_list-IsPartitionList_example :
    IsPartitionList
      (λ p.
        expected
          (some ((9, 4) ∷ []))
          (is_some (find no_names.prefix_registry p))
          (user_record ∷ blank_record ∷ [])
          p)
      (build_partition_list no_names (user_record ∷ blank_record ∷ []) (some ((9, 4) ∷ [])))
build_partition_list-IsPartitionList_example =
    build_partition_list-IsPartitionList no_names (user_record ∷ blank_record ∷ [])
      (some ((9, 4) ∷ []))
