-- ===== src/Payload/Parse/Shape.antt =====
-- data-parser.ts: the shape of a parsed record.
use beast_db.Prelude.{
  ℕ, ◌≤◌, ◌<◌, ◌≡◌, ◌≢◌, refl, sym, ◌^◌, Bool, true, false, ◌||◌, Option, none, some, List, [], ◌∷◌,
  or_else, is_some, length, All, if◌then◌else◌,
}
use beast_db.Js.Text.{Text, trim, split}
use beast_db.Js.Text.Utf8.{bytes, code_points, utf8_size-eq-length}
use beast_db.Js.Case.{CaseMap}
use beast_db.Js.Json.{Json, arr, obj, items, entries}
use beast_db.Js.Platform.{Platform}
use beast_db.Types.{
  PayloadFormat, json_object, json_array, token, string, binary, empty, Attribute, UniversalRecord,
}
use beast_db.Keys.Registry.{Registries}
use beast_db.Keys.Decoder.{KeyDecoded, decode_key}
use beast_db.Keys.Decoder.RoundTrip.{decode_key-InRange}
use beast_db.Payload.Attributes.{is_redacted}
use beast_db.Payload.Attributes.Redaction.{visible_fields-All, summarise_bounds}
use beast_db.Payload.Parse.{
  Parsed, blank, string_payload, array_payload, token_parts, object_payload, object_cut, try_object,
  braces, brackets, payload, or_default, parse_universal_record,
}

abbrev pub is_object : PayloadFormat → Bool
is_object json_object = true
is_object _ = false

abbrev pub is_array : PayloadFormat → Bool
is_array json_array = true
is_array _ = false

abbrev pub is_string : PayloadFormat → Bool
is_string string = true
is_string _ = false

abbrev pub is_blank : PayloadFormat → Bool
is_blank empty = true
is_blank _ = false

-- An object has fields, and besides it only a text that its catch has made a string; items are
-- there for an array alone; no field is redacted; an object has at most five attributes.
pub record IsShaped (format : PayloadFormat) (fields : Option (List (Text × Json)))
    (array_items : Option (List Json)) (attributes : List Attribute) : Type 0 where
  pub not_binary : format ≢ binary
  pub has_fields : is_object format ≡ true → is_some fields ≡ true
  pub no_fields : is_some fields ≡ true → (is_object format || is_string format) ≡ true
  pub has_items : is_some array_items ≡ is_array format
  pub hidden : All (λ e. is_redacted e.0 ≡ false) (or_else fields [])
  pub few : is_object format ≡ true → length attributes ≤ 5

abbrev ShapedPayload : Bool → Parsed → Type 0
ShapedPayload b p = IsShaped p.format p.fields p.array_items p.attributes × (is_blank p.format ≡ b)

Shaped-if :
    (b : Bool) (x y : Parsed)
    → ShapedPayload false x
    → ShapedPayload false y
    → ShapedPayload false (if b then x else y)
Shaped-if true x y h k = h
Shaped-if false x y h k = k

-- A payload that is no object and no array.
Shaped-plain :
    (f : PayloadFormat) (list : List Attribute)
    → f ≢ binary
    → is_object f ≡ false
    → is_array f ≡ false
    → IsShaped f none none list
Shaped-plain f list b o a = record {
  not_binary = b;
  has_fields = λ e. cc;
  no_fields = λ e. cc;
  has_items = sym a;
  hidden = tt;
  few = λ e. cc;
}

string-Shaped : (s : Text) → ShapedPayload false (string_payload s)
unfolding string_payload
string-Shaped s = (Shaped-plain string _ (λ e. cc) refl refl, refl)

array-Shaped : (js : List Json) → ShapedPayload false (array_payload js)
unfolding array_payload
array-Shaped js = (
  record {
    not_binary = λ e. cc;
    has_fields = λ e. cc;
    no_fields = λ e. cc;
    has_items = refl;
    hidden = tt;
    few = λ e. cc;
  },
  refl,
)

token-Shaped : (parts : List Text) → ShapedPayload false (token_parts parts)
unfolding token_parts
token-Shaped [] = (Shaped-plain token _ (λ e. cc) refl refl, refl)
token-Shaped (p ∷ parts) = (Shaped-plain token _ (λ e. cc) refl refl, refl)

or_default-ne-nil : (s : Text) (u : ℕ) (t : Text) → or_default s (u ∷ t) ≢ []
or_default-ne-nil [] u t e = cc
or_default-ne-nil (v ∷ s) u t e = cc

abbrev is_nil : Text → Bool
is_nil [] = true
is_nil (u ∷ s) = false

-- A parsed record has a label; it is blank exactly when the value is white space; its fields,
-- items and attributes fit its format; its key's parts are in range; its size is the number of its
-- bytes in UTF-8.
pub record IsWellFormed (raw : Text) (r : UniversalRecord) : Type 0 where
  pub labelled : r.primary_label ≢ []
  pub shaped : IsShaped r.format r.fields r.array_items r.attributes
  pub blank_iff : is_blank r.format ≡ is_nil (trim raw)
  pub prefix_fits : r.prefix < 2 ^ 8
  pub user_fits : r.user_hash < 2 ^ 28
  pub item_fits : r.item_hash < 2 ^ 28
  pub sized : r.byte_size ≡ length (bytes (code_points raw))

module _ ⦃c : CaseMap⦄ where
  object-Shaped :
      (d : KeyDecoded) (o : List (Text × Json)) → ShapedPayload false (object_payload d o)
  unfolding object_payload
  object-Shaped d o = (
    record {
      not_binary = λ e. cc;
      has_fields = λ e. refl;
      no_fields = λ e. refl;
      has_items = refl;
      hidden = visible_fields-All o;
      few = λ e. (summarise_bounds o).1;
    },
    refl,
  )

  cut-Shaped : (t : Text) (o : List (Text × Json)) → ShapedPayload false (object_cut t o)
  unfolding object_cut string_payload
  cut-Shaped t o = (
    record {
      not_binary = λ e. cc;
      has_fields = λ e. refl;
      no_fields = λ e. refl;
      has_items = refl;
      hidden = visible_fields-All o;
      few = λ e. cc;
    },
    refl,
  )

  braces-Shaped : (d : KeyDecoded) (t : Text) (j : Option Json) → ShapedPayload false (braces d t j)
  unfolding braces try_object
  braces-Shaped d t (some (obj o)) =
      Shaped-if _ _ _ (cut-Shaped t (entries o)) (object-Shaped d (entries o))
  braces-Shaped d t _ = string-Shaped t

  brackets-Shaped : (t : Text) (j : Option Json) → ShapedPayload false (brackets t j)
  unfolding brackets
  brackets-Shaped t (some (arr js)) = array-Shaped (items js)
  brackets-Shaped t _ = string-Shaped t

  payload-Shaped :
      (js : Platform) (d : KeyDecoded) (t : Text) → ShapedPayload (is_nil t) (payload js d t)
  unfolding payload
  payload-Shaped js d [] = unfold blank in (Shaped-plain empty _ (λ e. cc) refl refl, refl)
  payload-Shaped js d (u ∷ s) = Shaped-if _ _ _ (braces-Shaped d (u ∷ s) (js.parse_json (u ∷ s))) (
      Shaped-if _ _ _ (brackets-Shaped (u ∷ s) (js.parse_json (u ∷ s)))
        (Shaped-if _ _ _ (token-Shaped (split b'|' (u ∷ s))) (string-Shaped (u ∷ s))))

  -- Whatever the key and the value, and whatever JSON.parse answers, the parsed record is well
  -- formed: it has a label; if it is an object it has fields, and no other has any but a string;
  -- none of them is redacted; it has items exactly if it is an array; an object has at most five
  -- attributes; it is blank exactly if the value is white space; the parts of its key are in range;
  -- and its size is the number of bytes of the code points of the value in UTF-8.
  pub parse_universal_record-IsWellFormed :
      (js : Platform) (s : Registries) (key value : Text)
      → IsWellFormed value (parse_universal_record js s key (some value))
  unfolding parse_universal_record
  parse_universal_record-IsWellFormed js s key value =
      let shape = payload-Shaped js (decode_key s key) (trim value) in
      let range = decode_key-InRange s key in
      record {
        labelled = or_default-ne-nil _ _ _;
        shaped = shape.0;
        blank_iff = shape.1;
        prefix_fits = range.prefix_fits;
        user_fits = range.user_fits;
        item_fits = range.item_fits;
        sized = utf8_size-eq-length value;
      }
