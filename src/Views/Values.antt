-- ===== src/Views/Values.antt =====
-- studio/src/components: RecordValue.tsx and RecordFieldList.tsx, the values of a record.
pub mod Calls
use beast_db.Prelude.{
  ℕ, Bool, true, false, not, ◌&&◌, ◌||◌, Option, none, some, List, [], ◌∷◌, ◌++◌, keep, ◌==◌,
  if◌then◌else◌, is_some,
}
use beast_db.Js.Text.{Text, units, same, ends_with}
use beast_db.Js.Case.{CaseMap, lower_unit}
use beast_db.Js.Regex.{Regex, seq, alt, empty, opt, lit_i, anything, test}
use beast_db.Js.Regex as Regex
use beast_db.Js.Json.{
  Json, Items, Fields, null, bool, num, str, arr, obj, nil, cons, end, field, to_text, truthy,
}
use beast_db.Payload.Values.{date_re}
use beast_db.Display.{field_label}
use beast_db.Views.Html.{
  Html, nothing, say, ◌⊕◌, invalid, el, with_attrs, lit, prop, when, each, either,
}
use beast_db.Views.Formats.{Formats}

-- /^https?:\/\//
link_re : Regex
link_re =
    seq (Regex.lit (units "http"))
      (seq (opt (Regex.lit (units "s"))) (seq (Regex.lit (units "://")) anything))

-- /\.(png|jpe?g|webp|gif|svg)(\?|$)/i
picture_re : Regex
picture_re = seq anything (
    seq (Regex.lit (units ".")) (
      seq
        (alt (lit_i (units "png")) (
          alt (seq (lit_i (units "jp")) (seq (opt (lit_i (units "e"))) (lit_i (units "g"))))
            (alt (lit_i (units "webp")) (alt (lit_i (units "gif")) (lit_i (units "svg"))))))
        (opt (seq (Regex.lit (units "?")) anything))))

-- item === null || typeof item !== "object"
abbrev is_plain : Json → Bool
is_plain (arr js) = false
is_plain (obj fs) = false
is_plain j = true

abbrev are_plain : Items → Bool
are_plain nil = true
are_plain (cons j js) = is_plain j && are_plain js

-- items.map((item) => String(item ?? "null")).join(", "), for plain items
abbrev joined : Items → Text
joined nil = []
joined (cons j nil) = to_text j
joined (cons j (cons k js)) = to_text j ++ units ", " ++ joined (cons k js)

module _ {E : Type 0} where
  -- A value of a document as a child of an element.
  unfoldable mutual
    pub child : Json → Html E
    child null = nothing
    child (bool b) = nothing
    child (num n) = say n
    child (str s) = say s
    child (arr js) = children js
    child (obj fs) = invalid

    pub children : Items → Html E
    children nil = nothing
    children (cons j js) = child j ⊕ children js

  -- {value && html}: what is not truthy is itself the child.
  abbrev pub when_value : Option Json → (Json → Html E) → Html E
  when_value none h = nothing
  when_value (some j) h = if truthy j then h j else child j

module _ {E : Type 0} ⦃c : CaseMap⦄ (f : Formats) where
  link : Text → Html E
  unfolding picture_re
  link s = el "div" (
      when (test picture_re s)
        (with_attrs "img" (prop "src" s ∷ prop "alt" (units "Record field preview") ∷ []) nothing)
      ⊕ with_attrs "a"
          (prop "href" s ∷ prop "target" (units "_blank") ∷ prop "rel" (units "noreferrer") ∷ [])
          (say s))

  text_value : Text → Html E
  unfolding link link_re
  text_value s =
      if test date_re s && is_some (f.seconds_since s)
      then with_attrs "time" (prop "dateTime" s ∷ prop "title" s ∷ []) (say (f.time_text s))
      else if test link_re s
      then link s
      else el "span" (say s)

  -- RecordValue
  unfoldable mutual
    unfolding text_value

    pub record_value : Json → Html E
    record_value null = el "span" (lit "null")
    record_value (bool b) = el "span" (either b (lit "Yes") (lit "No"))
    record_value (num n) = el "span" (say n)
    record_value (str s) = text_value s
    record_value (arr nil) = el "span" (lit "None")
    record_value (arr (cons j js)) =
        let rows = el "li" (record_value j) ⊕ item_values js in
        either (are_plain (cons j js)) (el "span" (say (joined (cons j js)))) (el "ul" rows)
    record_value (obj fs) = el "dl" (field_values fs)

    pub item_values : Items → Html E
    item_values nil = nothing
    item_values (cons j js) = el "li" (record_value j) ⊕ item_values js

    pub field_values : Fields → Html E
    field_values end = nothing
    field_values (field k j fs) =
        el "div" (el "dt" (say (field_label k)) ⊕ el "dd" (record_value j)) ⊕ field_values fs

  field_row : Text × Json → Html E
  unfolding record_value
  field_row (name, value) =
      el "div" (el "dt" (say (field_label name)) ⊕ el "dd" (record_value value))

-- name === "id" || name.endsWith("Id") || /(?:^|[_-])id$/i.test(name)
unfoldable pub is_identifier : Text → Bool
is_identifier name =
    let low = lit_i (units "id") in
    same name (units "id")
    || ends_with name (units "Id")
    || test (alt low (seq anything (seq (Regex.unit (λ u. (u == b'_') || (u == b'-'))) low))) name

same_flag : Bool → Bool → Bool
same_flag a b = if a then b else not b

-- The entries of a document that are identifiers, or the others.
unfoldable pub entries_of : Bool → List (Text × Json) → List (Text × Json)
unfolding is_identifier same_flag
entries_of identifiers fields = keep (λ e. same_flag (is_identifier e.0) identifiers) fields

module _ {E : Type 0} ⦃c : CaseMap⦄ (f : Formats) where
  field_list_of : List (Text × Json) → Html E
  unfolding field_row
  field_list_of [] = nothing
  field_list_of (e ∷ es) = el "dl" (each (field_row f) (e ∷ es))

  unfoldable pub record_field_list : List (Text × Json) → Bool → Html E
  unfolding entries_of field_list_of
  record_field_list fields identifiers = field_list_of (entries_of identifiers fields)
