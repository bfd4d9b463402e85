-- ===== src/NewRecord/Properties.antt =====
-- RecordFields.tsx: the form of the properties, and what its elements do to the list of them.
use beast_db.Prelude.{not, List, [], ◌∷◌, ◌++◌, map, keep, if◌then◌else◌}
use beast_db.Js.Text.{Text, units, same}
use beast_db.NewRecord.Fields.{Kind, string, number, boolean, json, Field}
use beast_db.Views.Html.{Html, click, change, nothing, say, ◌⊕◌, el, with_attrs, lit, prop, each}

-- current.map((f) => (f.id === id ? { ...f, ...patch } : f))
unfoldable pub update : Text → (Field → Field) → List Field → List Field
update id patch fields = map (λ f. if same f.id id then patch f else f) fields

-- The property has the id that crypto.randomUUID has given.
unfoldable pub add_property : Text → List Field → List Field
add_property id fields = fields ++ record { id = id; name = []; type = string; value = [] } ∷ []

unfoldable pub remove_property : Text → List Field → List Field
remove_property id fields = keep (λ f. not (same f.id id)) fields

abbrev kind_text : Kind → Text
kind_text string = units "string"
kind_text number = units "number"
kind_text boolean = units "boolean"
kind_text json = units "json"

-- The options are the four kinds.
abbrev kind_of : Text → Kind
kind_of s =
    if same s (units "number")
    then number
    else if same s (units "boolean")
    then boolean
    else if same s (units "json")
    then json
    else string

or_false : Text → Text
or_false [] = units "false"
or_false (u ∷ s) = u ∷ s

module _ {E : Type 0} (set_fields : (List Field → List Field) → List E) where
  option : Text → Text → Html E
  option value name = with_attrs "option" (prop "value" value ∷ []) (say name)

  value_input : Field → Kind → Html E
  unfolding update option or_false
  value_input f boolean =
      with_attrs "select"
        (prop "aria-label" (units "Property value")
          ∷ prop "value" (or_false f.value)
          ∷ change (λ v. set_fields (update f.id (λ g. record g { value = v })))
          ∷ [])
        (option (units "false") (units "false") ⊕ option (units "true") (units "true"))
  value_input f _ =
      with_attrs "Input"
        (prop "aria-label" (units "Property value")
          ∷ prop "placeholder" (units "Value")
          ∷ prop "value" f.value
          ∷ change (λ v. set_fields (update f.id (λ g. record g { value = v })))
          ∷ [])
        nothing

  property_row : Field → Html E
  unfolding update remove_property value_input option
  property_row f = el "div" (
      with_attrs "Input"
        (prop "aria-label" (units "Property name")
          ∷ prop "placeholder" (units "Name")
          ∷ prop "value" f.name
          ∷ change (λ v. set_fields (update f.id (λ g. record g { name = v })))
          ∷ [])
        nothing
      ⊕ with_attrs "select"
          (prop "aria-label" (units "Property type")
            ∷ prop "value" (kind_text f.type)
            ∷ change (λ v. set_fields (update f.id (λ g. record g { type = kind_of v })))
            ∷ [])
          (option (units "string") (units "String")
            ⊕ option (units "number") (units "Number")
            ⊕ option (units "boolean") (units "Boolean")
            ⊕ option (units "json") (units "JSON"))
      ⊕ value_input f f.type
      ⊕ with_attrs "Button"
          (prop "aria-label" (units "Remove property")
            ∷ click (set_fields (remove_property f.id))
            ∷ [])
          nothing)

  unfoldable pub record_fields : Text → List Field → Html E
  unfolding add_property property_row
  record_fields uuid fields = el "div" (
      el "div" (
        el "span" (lit "Properties")
        ⊕ with_attrs "Button" (click (set_fields (add_property uuid)) ∷ []) (lit "Add property"))
      ⊕ el "div" (each property_row fields))
