-- ===== src/Schema/Fields.antt =====
-- nameFromFields: what the properties of one document say of its collection.
use mathlib.Core.List.{reverse}
use beast_db.Prelude.{
  ℕ, Bool, true, false, not, ◌&&◌, ◌||◌, Option, none, some, List, [], ◌∷◌, map, all, keep, first,
  ◌==◌, if◌then◌else◌,
}
use beast_db.Js.Text.{Text, units, has, same, trim}
use beast_db.Js.Case.{CaseMap, to_lower, lower_unit}
use beast_db.Js.Regex.{is_dot}
use beast_db.Js.Json.{Json, str, obj, entries, get, coalesce, is_present}
use beast_db.Schema.Names.{format_collection_name}

pub record Candidate : Type 0 where
  pub label : Text
  pub confidence : ℕ

abbrev pub candidate : Text → ℕ → Option Candidate
candidate label confidence = some (record { label = label; confidence = confidence })

abbrev relation_ids : List Text
relation_ids =
    units "user"
    ∷ units "owner"
    ∷ units "sender"
    ∷ units "receiver"
    ∷ units "actor"
    ∷ units "target"
    ∷ units "friend"
    ∷ units "parent"
    ∷ units "createdby"
    ∷ units "updatedby"
    ∷ []

abbrev generic_objects : List Text
generic_objects =
    units "data"
    ∷ units "payload"
    ∷ units "metadata"
    ∷ units "details"
    ∷ units "attributes"
    ∷ units "fields"
    ∷ []

abbrev is_string : Option Json → Bool
is_string (some (str s)) = true
is_string _ = false

-- f[a] != null
abbrev present : List (Text × Json) → Text → Bool
present f a = is_present (get f a)

-- key.match(/^(.+?)(?:Id|_id)$/i)?.[1], over the key in reverse: the shortest stem, so `_id` goes first.
stem : Text → Option Text
stem (u ∷ v ∷ s) =
    if u == b'_'
    then (if all is_dot (v ∷ s) then some (reverse (v ∷ s)) else none)
    else if all is_dot (u ∷ v ∷ s)
    then some (reverse (u ∷ v ∷ s))
    else none
stem (u ∷ []) = if is_dot u then some (u ∷ []) else none
stem [] = none

id_reversed : Text → Option Text
unfolding stem
id_reversed (d ∷ i ∷ s) = if lower_unit d == b'd' && lower_unit i == b'i' then stem s else none
id_reversed _ = none

unfoldable pub id_stem : Text → Option Text
unfolding id_reversed lower_unit
id_stem key = id_reversed (reverse key)

collect : List (Option Text) → List Text
collect [] = []
collect (none ∷ os) = collect os
collect (some s ∷ os) = s ∷ collect os

module _ ⦃c : CaseMap⦄ where
  -- typeof tag === "string" && tag.trim()
  tagged : Option Json → ℕ → Option Candidate
  tagged (some (str s)) confidence = elim (trim s) [
    | [] ↦ none
    | u ∷ t ↦ candidate (format_collection_name s) confidence
  ]
  tagged _ confidence = none

  explicit_tag : List (Text × Json) → Option Candidate
  unfolding tagged
  explicit_tag f =
      tagged
        (coalesce (get f (units "collection")) (
          coalesce (get f (units "entity")) (
            coalesce (get f (units "model"))
              (coalesce (get f (units "table")) (get f (units "_type"))))))
        5

  -- The first property that is an object with a title, a name or an id.
  is_subject : Text → List (Text × Json) → Bool
  is_subject key o =
      not (has generic_objects (to_lower key))
      && not (has relation_ids (to_lower key))
      && (is_string (get o (units "title"))
          || is_string (get o (units "name"))
          || present o (units "id"))

  nested : List (Text × Json) → Option Candidate
  unfolding is_subject
  nested [] = none
  nested ((key, obj o) ∷ f) =
      if is_subject key (entries o) then candidate (format_collection_name key) 4 else nested f
  nested ((key, _) ∷ f) = nested f

  -- The heuristics on names of properties, in their order.
  known_shape : List (Text × Json) → Option Candidate
  known_shape f =
      if present f (units "sku") && present f (units "price")
      then candidate (units "Products") 4
      else if present f (units "sensorId")
          && (present f (units "temperature") || present f (units "humidity"))
      then candidate (units "Telemetry") 4
      else if present f (units "email")
          && (present f (units "username")
              || present f (units "passwordHash")
              || present f (units "password_hash"))
      then candidate (units "Users") 4
      else if present f (units "username")
          && present f (units "role")
          && not (present f (units "email"))
      then candidate (units "System Users") 4
      else if present f (units "token")
          || present f (units "tokenHash")
          || present f (units "token_hash")
          || present f (units "refreshToken")
          || present f (units "refresh_token")
      then candidate (units "Tokens") 4
      else none

  is_subject_id : Text → Bool
  is_subject_id name =
      not (has relation_ids (to_lower name)) && not (same (to_lower name) (units "item"))

  only_one : List Text → Option Candidate
  only_one (name ∷ []) = candidate (format_collection_name name) 3
  only_one _ = none

  single_id : List (Text × Json) → Option Candidate
  unfolding is_subject_id only_one id_stem collect
  single_id f = only_one (keep is_subject_id (collect (map (λ e. id_stem e.0) f)))

  weak_tag : List (Text × Json) → Option Candidate
  unfolding tagged
  weak_tag f = tagged (coalesce (get f (units "type")) (get f (units "kind"))) 2

  unfoldable pub name_from_fields : List (Text × Json) → Option Candidate
  unfolding explicit_tag nested known_shape single_id weak_tag trim
  name_from_fields f =
      first (explicit_tag f)
        (first (nested f) (first (known_shape f) (first (single_id f) (weak_tag f))))
