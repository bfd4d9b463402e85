-- ===== src/Views/Values/Calls.antt =====
-- The values of a record make no calls.
use beast_db.Prelude.{◌≡◌, refl, Bool, true, Option, none, some, List, [], ◌∷◌, arith}
use beast_db.Js.Text.{Text}
use beast_db.Js.Case.{CaseMap}
use beast_db.Js.Json.{Json, Items, Fields, null, bool, num, str, arr, obj, nil, cons, end, field}
use beast_db.Views.Html.{Html, every}
use beast_db.Views.Html.Laws.{every-each}
use beast_db.Views.Formats.{Formats}
use beast_db.Views.Values.{
  child, children, when_value, text_value, record_value, item_values, field_values, field_row,
  field_list_of, entries_of, record_field_list,
}

module _ {E : Type 0} (p : E → Bool) where
  mutual
    unfolding child children

    pub every-child : (j : Json) → every p (child j) ≡ true
    every-child null = refl
    every-child (bool b) = refl
    every-child (num n) = refl
    every-child (str s) = refl
    every-child (arr js) = every-children js
    every-child (obj fs) = refl

    every-children : (js : Items) → every p (children js) ≡ true
    every-children nil = refl
    every-children (cons j js) = ground (arith, every-child j, every-children js)

  pub every-when_value :
      (v : Option Json) (h : Json → Html E)
      → ((j : Json) → every p (h j) ≡ true)
      → every p (when_value v h) ≡ true
  every-when_value none h k = refl
  every-when_value (some j) h k = ground (arith, k j, every-child j)

module _ {E : Type 0} ⦃c : CaseMap⦄ (p : E → Bool) (f : Formats) where
  every-text_value : (s : Text) → every p (text_value {E = E} f s) ≡ true
  unfolding text_value
  every-text_value s = ground arith

  mutual
    unfolding record_value item_values field_values

    pub every-record_value : (j : Json) → every p (record_value {E = E} f j) ≡ true
    every-record_value null = refl
    every-record_value (bool b) = ground arith
    every-record_value (num n) = refl
    every-record_value (str s) = every-text_value s
    every-record_value (arr nil) = refl
    every-record_value (arr (cons j js)) =
        ground (arith, every-record_value j, every-item_values js)
    every-record_value (obj fs) = ground (arith, every-field_values fs)

    every-item_values : (js : Items) → every p (item_values {E = E} f js) ≡ true
    every-item_values nil = refl
    every-item_values (cons j js) = ground (arith, every-record_value j, every-item_values js)

    every-field_values : (fs : Fields) → every p (field_values {E = E} f fs) ≡ true
    every-field_values end = refl
    every-field_values (field k j fs) = ground (arith, every-record_value j, every-field_values fs)

  every-field_row : (e : Text × Json) → every p (field_row {E = E} f e) ≡ true
  unfolding field_row
  every-field_row (name, value) = ground (arith, every-record_value value)

  every-field_list_of : (es : List (Text × Json)) → every p (field_list_of {E = E} f es) ≡ true
  unfolding field_list_of
  every-field_list_of [] = refl
  every-field_list_of (e ∷ es) =
      ground (arith, every-field_row e, every-each p (field_row f) es every-field_row)

  pub every-record_field_list :
      (fields : List (Text × Json)) (b : Bool)
      → every p (record_field_list {E = E} f fields b) ≡ true
  unfolding record_field_list
  every-record_field_list fields b = every-field_list_of (entries_of b fields)
