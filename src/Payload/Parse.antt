-- ===== src/Payload/Parse.antt =====
-- data-parser.ts: parseUniversalRecord.
pub mod Shape
pub mod Token
use mathlib.Core.Option
use beast_db.Prelude.{
  ℕ, zero, suc, ◌+◌, Bool, true, false, not, ◌&&◌, ◌||◌, Option, none, some, List, [], ◌∷◌, ◌++◌,
  or_else, first, ltb, take, length, if◌then◌else◌,
}
use beast_db.Js.Text.{
  Text, units, trim, starts_with, ends_with, includes, split, join, take_last, utf8_size,
}
use beast_db.Js.Case.{CaseMap}
use beast_db.Js.BigInt.{to_decimal}
use beast_db.Js.Json.{
  Json, null, bool, num, str, arr, obj, items, entries, get, coalesce, is_present, truthy, to_text,
  item_text, is_unprintable,
}
use beast_db.Js.Platform.{Platform}
use beast_db.Types.{
  PayloadFormat, json_object, json_array, token, string, binary, empty, Attribute, UniversalRecord,
}
use beast_db.Keys.Registry.{Registries}
use beast_db.Keys.Decoder.{KeyDecoded, decode_key}
use beast_db.Payload.Values.{find_image, display_text, display_name}
use beast_db.Payload.Attributes.{visible_fields, summarise}

-- The variables that the branches of the function assign.
pub record Parsed : Type 0 where
  pub format : PayloadFormat
  pub primary_label : Text
  pub secondary_label : Text
  pub cover_url : Option Text
  pub status : Option Json
  pub rating : Option Json
  pub attributes : List Attribute
  pub fields : Option (List (Text × Json))
  pub array_items : Option (List Json)

blank : PayloadFormat → Text → Parsed
blank format label = record {
  format = format;
  primary_label = label;
  secondary_label = [];
  cover_url = none;
  status = none;
  rating = none;
  attributes = [];
  fields = none;
  array_items = none;
}

-- The last `if`: a text is cut to 50 units.
string_payload : Text → Parsed
unfolding blank
string_payload trimmed =
    record (blank string
      (if ltb 50 (length trimmed) then take 47 trimmed ++ units "..." else trimmed)) {
        attributes =
            record {
              key = units "length";
              value = to_decimal (length trimmed) ++ units " chars";
              type = units "number";
            }
            ∷ [];
      }

array_payload : List Json → Parsed
unfolding blank
array_payload js =
    record (blank json_array (units "Array [" ++ to_decimal (length js) ++ units " items]")) {
      attributes =
          record { key = units "length"; value = to_decimal (length js); type = units "number" }
          ∷ [];
      array_items = some js;
    }

part_attributes : ℕ → List Text → List Attribute
part_attributes n [] = []
part_attributes n (p ∷ parts) =
    record { key = units "part_" ++ to_decimal n; value = p; type = units "string" }
    ∷ part_attributes (n + 1) parts

-- a || b
abbrev or_default : Text → Text → Text
or_default [] d = d
or_default (u ∷ s) d = u ∷ s

token_parts : List Text → Parsed
unfolding blank part_attributes
token_parts [] = blank token (units "Token Payload")
token_parts (p ∷ parts) = record (blank token (or_default p (units "Token Payload"))) {
  secondary_label = join (units " • ") parts;
  attributes = part_attributes 1 (p ∷ parts);
}

-- [status, name ? note : undefined].filter(Boolean)
shown_status : Option Json → List Text
shown_status none = []
shown_status (some j) = if truthy j then item_text j ∷ [] else []

shown_note : Option Text → Option Text → List Text
shown_note (some name) (some note) = note ∷ []
shown_note _ _ = []

fallback_label : KeyDecoded → List (Text × Json) → Text
fallback_label decoded o =
    units "Record "
    ++ (if is_present (get o (units "id"))
        then or_else (Option.map to_text (get o (units "id"))) []
        else take_last 6 decoded.raw)

-- A property that has no text.
unprintable : Option Json → Bool
unprintable none = false
unprintable (some j) = is_unprintable j

-- Does the template of an id, or the join of a status, throw?
throws : Option Text → List (Text × Json) → Bool
unfolding unprintable is_unprintable
throws none o = unprintable (get o (units "id")) || unprintable (get o (units "status"))
throws (some label) o = unprintable (get o (units "status"))

module _ ⦃c : CaseMap⦄ where
  -- What is assigned before the label stays when the label or the status throws.
  object_cut : Text → List (Text × Json) → Parsed
  unfolding string_payload
  object_cut trimmed o = record (string_payload trimmed) {
    cover_url = find_image o;
    fields = some (visible_fields o);
  }

  object_payload : KeyDecoded → List (Text × Json) → Parsed
  unfolding shown_status shown_note fallback_label
  object_payload decoded o =
      let name = first (display_name o) (display_text o (units "username" ∷ units "email" ∷ [])) in
      let note =
        display_text o
          (units "description" ∷ units "summary" ∷ units "subtitle" ∷ units "notes" ∷ []) in
      record {
        format = json_object;
        primary_label = or_else (first name note) (fallback_label decoded o);
        secondary_label =
            join (units " · ") (shown_status (get o (units "status")) ++ shown_note name note);
        cover_url = find_image o;
        status =
            coalesce (get o (units "status"))
              (coalesce (get o (units "role")) (get o (units "type")));
        rating =
            coalesce (get o (units "rating"))
              (coalesce (get o (units "score")) (get o (units "userRating")));
        attributes = summarise o [];
        fields = some (visible_fields o);
        array_items = none;
      }

  -- The body of the try, and its catch.
  try_object : KeyDecoded → Text → List (Text × Json) → Parsed
  unfolding object_payload object_cut throws
  try_object decoded trimmed o =
      let name = first (display_name o) (display_text o (units "username" ∷ units "email" ∷ [])) in
      let note =
        display_text o
          (units "description" ∷ units "summary" ∷ units "subtitle" ∷ units "notes" ∷ []) in
      if throws (first name note) o then object_cut trimmed o else object_payload decoded o

  -- A text in braces, or in brackets, that does not parse is a string.
  braces : KeyDecoded → Text → Option Json → Parsed
  unfolding try_object string_payload
  braces decoded trimmed (some (obj o)) = try_object decoded trimmed (entries o)
  braces decoded trimmed _ = string_payload trimmed

  brackets : Text → Option Json → Parsed
  unfolding array_payload string_payload
  brackets trimmed (some (arr js)) = array_payload (items js)
  brackets trimmed _ = string_payload trimmed

  payload : Platform → KeyDecoded → Text → Parsed
  unfolding braces brackets token_parts
  payload js decoded [] = blank empty (units "Empty record")
  payload js decoded (u ∷ s) =
      let trimmed = u ∷ s in
      if starts_with trimmed (units "{") && ends_with trimmed (units "}")
      then braces decoded trimmed (js.parse_json trimmed)
      else if starts_with trimmed (units "[") && ends_with trimmed (units "]")
      then brackets trimmed (js.parse_json trimmed)
      else if includes trimmed (units "|") && ltb (length trimmed) 250
      then token_parts (split b'|' trimmed)
      else string_payload trimmed

  build : KeyDecoded → Text → Parsed → UniversalRecord
  build decoded raw p = record {
    key_str = decoded.raw;
    key_hex = decoded.hex;
    prefix = decoded.prefix;
    prefix_label = decoded.prefix_label;
    user_hash = decoded.user_hash;
    item_hash = decoded.item_hash;
    format = p.format;
    byte_size = utf8_size raw;
    primary_label = or_default p.primary_label (units "Key " ++ decoded.prefix_hex);
    secondary_label = p.secondary_label;
    cover_url = p.cover_url;
    status = p.status;
    rating = p.rating;
    attributes = p.attributes;
    fields = p.fields;
    array_items = p.array_items;
    raw = raw;
  }

  -- `none` is a value that is null or missing.
  unfoldable pub parse_universal_record :
      Platform → Registries → Text → Option Text → UniversalRecord
  unfolding payload build trim
  parse_universal_record js s key_text value =
      let decoded = decode_key s key_text in
      let raw = or_else value [] in build decoded raw (payload js decoded (trim raw))
