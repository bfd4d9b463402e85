-- ===== src/Payload/Parse/Token.antt =====
-- data-parser.ts: the parts of a delimited text.
use beast_db.Prelude.{
  ℕ, ◌+◌, ◌≡◌, refl, ap, ◌∙◌, Bool, true, false, Option, some, List, [], ◌∷◌, map, if◌then◌else◌,
}
use beast_db.Js.Text.{Text, trim, split, join}
use beast_db.Js.Text.Split.{join-split}
use beast_db.Js.Case.{CaseMap}
use beast_db.Js.Json.{Json, arr, obj, entries}
use beast_db.Js.Platform.{Platform}
use beast_db.Types.{token}
use beast_db.Keys.Registry.{Registries}
use beast_db.Keys.Decoder.{KeyDecoded, decode_key}
use beast_db.Payload.Parse.{
  Parsed, blank, string_payload, array_payload, part_attributes, token_parts, object_payload,
  object_cut, try_object, braces, brackets, payload, parse_universal_record,
}

values-part_attributes :
    (n : ℕ) (parts : List Text) → map (λ a. a.value) (part_attributes n parts) ≡ parts
unfolding part_attributes
values-part_attributes n [] = refl
values-part_attributes n (p ∷ parts) = ap (λ t. p ∷ t) (values-part_attributes (n + 1) parts)

values-token_parts : (parts : List Text) → map (λ a. a.value) (token_parts parts).attributes ≡ parts
unfolding token_parts blank
values-token_parts [] = refl
values-token_parts (p ∷ parts) = values-part_attributes 1 (p ∷ parts)

-- Where the payload is a delimited text its attributes, joined, are the text.
abbrev Rejoins : Text → Parsed → Type 0
Rejoins t p = p.format ≡ token → join (b'|' ∷ []) (map (λ a. a.value) p.attributes) ≡ t

Rejoins-if :
    (b : Bool) (t : Text) (x y : Parsed)
    → Rejoins t x
    → Rejoins t y
    → Rejoins t (if b then x else y)
Rejoins-if true t x y h k = h
Rejoins-if false t x y h k = k

string-Rejoins : (t : Text) → Rejoins t (string_payload t)
unfolding string_payload
string-Rejoins t e = cc

token-Rejoins : (t : Text) → Rejoins t (token_parts (split b'|' t))
token-Rejoins t e = ap (join (b'|' ∷ [])) (values-token_parts (split b'|' t)) ∙ join-split b'|' t

module _ ⦃c : CaseMap⦄ where
  braces-Rejoins : (d : KeyDecoded) (t : Text) (j : Option Json) → Rejoins t (braces d t j)
  unfolding braces try_object object_payload object_cut string_payload
  braces-Rejoins d t (some (obj o)) e =
      Rejoins-if _ t (object_cut t (entries o)) (object_payload d (entries o)) (λ x. cc) (λ x. cc) e
  braces-Rejoins d t _ e = string-Rejoins t e

  brackets-Rejoins : (t : Text) (j : Option Json) → Rejoins t (brackets t j)
  unfolding brackets array_payload
  brackets-Rejoins t (some (arr js)) e = cc
  brackets-Rejoins t _ e = string-Rejoins t e

  payload-Rejoins : (js : Platform) (d : KeyDecoded) (t : Text) → Rejoins t (payload js d t)
  unfolding payload
  payload-Rejoins js d [] e = unfold blank in cc
  payload-Rejoins js d (u ∷ s) e =
      Rejoins-if _ (u ∷ s) _ _ (braces-Rejoins d (u ∷ s) (js.parse_json (u ∷ s)))
        (Rejoins-if _ (u ∷ s) _ _ (brackets-Rejoins (u ∷ s) (js.parse_json (u ∷ s)))
          (Rejoins-if _ (u ∷ s) _ _ (token-Rejoins (u ∷ s)) (string-Rejoins (u ∷ s))))
        e

  -- The attributes of a record that is taken for a delimited text are its parts, in order and with
  -- none lost: joined by the delimiter they are the whole trimmed value.
  pub parse_universal_record-join :
      (js : Platform) (s : Registries) (key value : Text)
      → (parse_universal_record js s key (some value)).format ≡ token
      → join
          (b'|' ∷ [])
          (map (λ a. a.value) (parse_universal_record js s key (some value)).attributes)
        ≡ trim value
  unfolding parse_universal_record
  parse_universal_record-join js s key value e =
      payload-Rejoins js (decode_key s key) (trim value) e
