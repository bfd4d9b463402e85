-- ===== src/Js/Json.antt =====
-- The values of JSON.parse, and what JavaScript makes of them: `typeof`, `String`, truth, `??`,
-- properties. A number stands as its decimal text `String(n)`.
use beast_db.Prelude.{
  Bool, true, false, not, ◌||◌, Option, none, some, List, [], ◌∷◌, ◌++◌, is_some, if◌then◌else◌,
}
use beast_db.Js.Text.{Text, units, same}

mutual
  pub data Json : Type 0 where
    null : Json
    bool : Bool → Json
    num : Text → Json
    str : Text → Json
    arr : Items → Json
    obj : Fields → Json

  pub data Items : Type 0 where
    nil : Items
    cons : Json → Items → Items

  -- The properties in the order of Object.entries, each name once.
  pub data Fields : Type 0 where
    end : Fields
    field : Text → Json → Fields → Fields

abbrev pub items : Items → List Json
items nil = []
items (cons j js) = j ∷ items js

abbrev pub entries : Fields → List (Text × Json)
entries end = []
entries (field k j fs) = (k, j) ∷ entries fs

-- o[name]: none is `undefined`.
abbrev pub get : List (Text × Json) → Text → Option Json
get [] name = none
get ((k, j) ∷ o) name = if same k name then some j else get o name

-- typeof j
abbrev pub type_of : Json → Text
type_of null = units "object"
type_of (bool b) = units "boolean"
type_of (num n) = units "number"
type_of (str s) = units "string"
type_of (arr js) = units "object"
type_of (obj fs) = units "object"

-- Boolean(j)
abbrev pub truthy : Json → Bool
truthy null = false
truthy (bool b) = b
truthy (num n) = not (same n (units "0"))
truthy (str []) = false
truthy (str (u ∷ s)) = true
truthy (arr js) = true
truthy (obj fs) = true

-- a ?? b
abbrev pub coalesce : Option Json → Option Json → Option Json
coalesce none b = b
coalesce (some null) b = b
coalesce (some j) b = some j

-- a != null
abbrev pub is_present : Option Json → Bool
is_present none = false
is_present (some null) = false
is_present (some j) = true

-- String(j); an array joins its items with commas, and null is empty there.
unfoldable mutual
  pub to_text : Json → Text
  to_text null = units "null"
  to_text (bool true) = units "true"
  to_text (bool false) = units "false"
  to_text (num n) = n
  to_text (str s) = s
  to_text (arr js) = items_text js
  to_text (obj fs) = units "[object Object]"

  pub items_text : Items → Text
  items_text nil = []
  items_text (cons j js) = item_text j ++ rest_text js

  pub rest_text : Items → Text
  rest_text nil = []
  rest_text (cons j js) = b',' ∷ item_text j ++ rest_text js

  pub item_text : Json → Text
  item_text null = []
  item_text (bool true) = units "true"
  item_text (bool false) = units "false"
  item_text (num n) = n
  item_text (str s) = s
  item_text (arr js) = items_text js
  item_text (obj fs) = units "[object Object]"

-- Does String(j) throw a TypeError? An object has no text when a property of its own hides the
-- method toString, as parsed JSON holds no functions; an array asks for the text of its items.
unfoldable mutual
  pub is_unprintable : Json → Bool
  is_unprintable (arr js) = any_unprintable js
  is_unprintable (obj fs) = is_some (get (entries fs) (units "toString"))
  is_unprintable _ = false

  pub any_unprintable : Items → Bool
  any_unprintable nil = false
  any_unprintable (cons j js) = is_unprintable j || any_unprintable js
