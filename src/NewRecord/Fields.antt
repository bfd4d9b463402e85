-- ===== src/NewRecord/Fields.antt =====
-- studio/src/components/RecordFields.tsx: buildFields, the document of the properties in the form.
pub mod Document
use beast_db.Prelude.{
  ℕ, Bool, true, false, ◌&&◌, ◌||◌, Option, none, some, List, [], ◌∷◌, ◌++◌, ltb, is_some,
  if◌then◌else◌,
}
use beast_db.Js.Text.{Text, units, same, trim}
use beast_db.Js.Radix.{parse_radix}
use beast_db.Js.BigInt.{to_decimal}
use beast_db.Js.Json.{Json, null, bool, str, obj, Fields, end, field, get}
use beast_db.Js.Platform.{Platform}
use beast_db.Hooks.Api.{Result, failed, done}

pub data Kind : Type 0 where
  string number boolean json : Kind

pub record Field : Type 0 where
  pub id : Text
  pub name : Text
  pub type : Kind
  pub value : Text

-- A name that is an array index; such names come first in an object, in ascending order.
index : Text → Option ℕ
unfolding to_decimal
index k = elim (parse_radix 10 k) [
  | none ↦ none
  | some n ↦ if same (to_decimal n) k && ltb n 4294967295 then some n else none
]

abbrev comes_before : Option ℕ → Option ℕ → Bool
comes_before none none = true
comes_before none (some n) = false
comes_before (some m) none = true
comes_before (some m) (some n) = ltb m n

-- data[name] = value, for a name that is not there.
add_property : Text → Json → List (Text × Json) → List (Text × Json)
unfolding index
add_property k v [] = (k, v) ∷ []
add_property k v ((q, w) ∷ o) =
    let rest = add_property k v o in
    if comes_before (index q) (index k) then (q, w) ∷ rest else (k, v) ∷ (q, w) ∷ o

fields_of : List (Text × Json) → Fields
fields_of [] = end
fields_of ((k, v) ∷ o) = field k v (fields_of o)

is_null : Json → Bool
is_null null = true
is_null j = false

is_blank : Text → Bool
is_blank [] = true
is_blank (u ∷ s) = false

module _ (js : Platform) where
  -- A number that is not finite is the one that JSON.stringify writes as null.
  pub typed_value : Field → Result Json
  unfolding is_null is_blank
  typed_value f = elim f.type [
    | string ↦ done (str f.value)
    | number ↦
        if is_blank (trim f.value) || is_null (js.number f.value)
        then failed (units "Enter a valid number for " ++ f.name ++ units ".")
        else done (js.number f.value)
    | boolean ↦ done (bool (same f.value (units "true")))
    | json ↦ elim (js.parse_json f.value) [
      | none ↦ failed (units "Invalid JSON in " ++ f.name ++ units ".")
      | some j ↦ done j
    ]
  ]

  add_typed : Text → Result Json → List (Text × Json) → Result (List (Text × Json))
  unfolding add_property
  add_typed name (failed m) o = failed m
  add_typed name (done j) o = done (add_property name j o)

  add_field : Field → List (Text × Json) → Result (List (Text × Json))
  unfolding add_typed typed_value
  add_field f o =
      if is_blank (trim f.name)
      then failed (units "Each property needs a name.")
      else if is_some (get o f.name)
      then failed (units "Duplicate property: " ++ f.name)
      else add_typed f.name (typed_value f) o

  pub and_then {ℓ} : {A B : Type ℓ} → Result A → (A → Result B) → Result B
  and_then (failed m) k = failed m
  and_then (done a) k = k a

  -- The loop.
  unfoldable pub collect_fields : List Field → List (Text × Json) → Result (List (Text × Json))
  unfolding add_field and_then
  collect_fields [] o = done o
  collect_fields (f ∷ fs) o = and_then (add_field f o) (collect_fields fs)

  unfoldable pub build_fields : List Field → Result Text
  unfolding collect_fields fields_of
  build_fields fs = and_then (collect_fields fs []) (λ o. done (js.pretty (obj (fields_of o))))
