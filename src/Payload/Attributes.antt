-- ===== src/Payload/Attributes.antt =====
-- data-parser.ts: the summary attributes of a document, and the keys that are kept from view.
pub mod Redaction
use beast_db.Prelude.{
  ℕ, zero, suc, ◌+◌, Bool, true, false, not, ◌&&◌, ◌||◌, Option, none, some, List, [], ◌∷◌, ◌++◌,
  keep, ltb, length, if◌then◌else◌,
}
use beast_db.Js.Text.{Text, units, has}
use beast_db.Js.BigInt.{to_decimal}
use beast_db.Js.Json.{Json, null, bool, num, str, arr, obj, items, entries, type_of, to_text}
use beast_db.Types.{Attribute}

-- REDACTED_KEYS
abbrev pub redacted_keys : List Text
redacted_keys =
    units "passwordHash"
    ∷ units "password_hash"
    ∷ units "password"
    ∷ units "salt"
    ∷ units "password_salt"
    ∷ units "token"
    ∷ units "secret"
    ∷ units "apiKey"
    ∷ units "api_key"
    ∷ units "apiSecret"
    ∷ units "api_secret"
    ∷ units "privateKey"
    ∷ units "private_key"
    ∷ units "sessionToken"
    ∷ units "session_secret"
    ∷ units "api_token"
    ∷ units "refresh_token"
    ∷ []

unfoldable pub is_redacted : Text → Bool
is_redacted k = has redacted_keys k

-- The fields for display.
unfoldable pub visible_fields : List (Text × Json) → List (Text × Json)
visible_fields = keep (λ e. not (is_redacted e.0))

-- The properties that are no attributes.
abbrev unsummarised : List Text
unsummarised = units "coverUrl" ∷ units "posterUrl" ∷ units "avatarUrl" ∷ units "description" ∷ []

unfoldable pub is_unsummarised : Text → Bool
is_unsummarised k = has unsummarised k

abbrev attribute : Text → Json → Attribute
attribute key v = record { key = key; value = to_text v; type = type_of v }

abbrev is_object_type : Json → Bool
is_object_type null = true
is_object_type (arr js) = true
is_object_type (obj fs) = true
is_object_type _ = false

-- attributes.push, while there are fewer than five
push : Attribute → List Attribute → List Attribute
push a list = if ltb (length list) 5 then list ++ a ∷ [] else list

-- The loop over the properties of a nested object.
push_nested : Text → List (Text × Json) → List Attribute → List Attribute
unfolding push
push_nested k [] list = list
push_nested k ((sub, v) ∷ o) list =
    push_nested k o (if is_object_type v then list else push (attribute (k ++ b'.' ∷ sub) v) list)

push_property : Text → Json → List Attribute → List Attribute
unfolding push_nested push
push_property k (obj o) list = push_nested k (entries o) list
push_property k (arr js) list =
    push
      (record {
        key = k;
        value = b'[' ∷ to_decimal (length (items js)) ++ b']' ∷ [];
        type = units "object";
      })
      list
push_property k v list = push (attribute k v) list

-- The loop over the properties of the document.
unfoldable pub summarise : List (Text × Json) → List Attribute → List Attribute
unfolding push_property to_decimal to_text
summarise [] list = list
summarise ((k, v) ∷ o) list =
    summarise o (if is_redacted k || is_unsummarised k then list else push_property k v list)
