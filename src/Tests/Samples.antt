-- ===== src/Tests/Samples.antt =====
-- A concrete engine, and the data of the runs.
use beast_db.Prelude.{Option, none, some, List, [], ◌∷◌, if◌then◌else◌}
use beast_db.Js.Text.{Text, units, same}
use beast_db.Js.Case.{CaseMap}
use beast_db.Js.Json.{Json, str, num, obj, end, field}
use beast_db.Js.Platform.{Platform}
use beast_db.Types.{json_object, empty, UniversalRecord, PartitionConfig}
use beast_db.Keys.Registry.{Registries}

-- An engine whose units from 128 on have no case.
instance abbrev pub ascii_case : CaseMap
ascii_case = record { lower_other = λ u. u ∷ []; upper_other = λ u. u ∷ [] }

-- {"title":"Dune","token":"t0"}
abbrev pub film_text : Text
film_text = units "{\"title\":\"Dune\",\"token\":\"t0\"}"

abbrev pub film : List (Text × Json)
film = (units "title", str (units "Dune")) ∷ (units "token", str (units "t0")) ∷ []

abbrev parse_film : Text → Option Json
parse_film s =
    if same s film_text
    then some (
        obj (
          field (units "title") (str (units "Dune"))
            (field (units "token") (str (units "t0")) end)))
    else none

abbrev pub engine : Platform
engine = record {
  parse_json = parse_film;
  pretty = λ j. film_text;
  number = λ s. num s;
  no_property = λ s. s;
}

abbrev pub user_record : UniversalRecord
user_record = record {
  key_str = units "1";
  key_hex = units "0x1";
  prefix = 7;
  prefix_label = units "Partition 0x07";
  user_hash = 0;
  item_hash = 1;
  format = json_object;
  byte_size = 40;
  primary_label = units "Ann";
  secondary_label = [];
  cover_url = none;
  status = none;
  rating = none;
  attributes = [];
  fields = some (
      (units "username", str (units "ann"))
      ∷ (units "passwordHash", str (units "x"))
      ∷ (units "email", str (units "a@b.c"))
      ∷ []);
  array_items = none;
  raw = units "{..}";
}

abbrev pub blank_record : UniversalRecord
blank_record = record user_record { format = empty; fields = none; raw = [] }

abbrev pub orders : PartitionConfig
orders = record {
  prefix = 3;
  label = units "Orders";
  color = units "blue";
  description = none;
  icon = none;
}

abbrev pub no_names : Registries
no_names = record { prefix_registry = []; inferred_registry = [] }
