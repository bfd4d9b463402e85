-- ===== src/Payload/Values.antt =====
-- data-parser.ts: the type of a field, and the picture and the name of a document.
use beast_db.Prelude.{
  ℕ, zero, suc, not, ◌||◌, Option, none, some, List, [], ◌∷◌, keep, first, ◌==◌, if◌then◌else◌,
}
use beast_db.Js.Text.{Text, units, has, trim, starts_with, includes}
use beast_db.Js.Case.{CaseMap, to_lower}
use beast_db.Js.Regex.{
  Regex, unit, seq, alt, star, plus, opt, times, lit, lit_i, is_digit, is_dot, anything, test,
}
use beast_db.Js.Json.{Json, null, bool, num, str, arr, obj, entries, get}

dot : Regex
dot = unit is_dot

-- /^https?:\/\/
scheme : Regex
scheme = seq (lit_i (units "http")) (seq (opt (lit_i (units "s"))) (lit (units "://")))

-- /^https?:\/\/.+\.(jpg|jpeg|png|webp|gif|svg)(\?.*)?$/i
unfoldable pub image_re : Regex
unfolding scheme dot
image_re = seq scheme (
    seq (plus dot) (
      seq (lit (units ".")) (
        seq
          (alt (lit_i (units "jpg")) (
            alt (lit_i (units "jpeg")) (
              alt (lit_i (units "png"))
                (alt (lit_i (units "webp")) (alt (lit_i (units "gif")) (lit_i (units "svg")))))))
          (opt (seq (lit (units "?")) (star dot))))))

-- /^https?:\/\//i
unfoldable pub url_re : Regex
unfolding scheme
url_re = seq scheme anything

-- /^\d{4}-\d{2}-\d{2}T\d{2}:\d{2}:\d{2}/
unfoldable pub date_re : Regex
date_re =
    let d = unit is_digit in
    seq (times 4 d) (
      seq (lit (units "-")) (
        seq (times 2 d) (
          seq (lit (units "-")) (
            seq (times 2 d) (
              seq (lit (units "T")) (
                seq (times 2 d) (
                  seq (lit (units ":"))
                    (seq (times 2 d) (seq (lit (units ":")) (seq (times 2 d) anything))))))))))

pub data FieldType : Type 0 where
  string number boolean array object date url image null_type : FieldType

string_type : Text → FieldType
string_type s =
    if test image_re s || includes s (units "steamstatic.com") || includes s (units "tmdb.org")
    then image
    else if test url_re s
    then url
    else if test date_re s
    then date
    else string

-- inferFieldType; `none` is undefined.
unfoldable pub infer_field_type : Option Json → FieldType
unfolding string_type
infer_field_type none = null_type
infer_field_type (some null) = null_type
infer_field_type (some (arr js)) = array
infer_field_type (some (bool b)) = boolean
infer_field_type (some (num n)) = number
infer_field_type (some (obj fs)) = object
infer_field_type (some (str s)) = string_type s

abbrev image_names : List Text
image_names =
    units "coverUrl"
    ∷ units "posterUrl"
    ∷ units "avatarUrl"
    ∷ units "cover_url"
    ∷ units "poster_url"
    ∷ units "avatar_url"
    ∷ units "avatar"
    ∷ units "thumbnail"
    ∷ units "image"
    ∷ units "icon"
    ∷ units "photo"
    ∷ []

link : Option Json → Option Text
link (some (str s)) = if starts_with s (units "http") then some s else none
link _ = none

first_link : List (Text × Json) → List Text → Option Text
first_link o [] = none
first_link o (name ∷ names) = first (link (get o name)) (first_link o names)

image_of : Json → Option Text
image_of (str s) = if test image_re s then some s else none
image_of _ = none

first_image : List (Text × Json) → Option Text
first_image [] = none
first_image ((k, v) ∷ o) = first (image_of v) (first_image o)

-- findImage, of an object
unfoldable pub find_image : List (Text × Json) → Option Text
unfolding first_link link first_image image_of starts_with
find_image o = first (first_link o image_names) (first_image o)

-- value.trim(), if it is a string that is not blank
text_value : Json → Option Text
text_value (str s) = elim (trim s) [ [] ↦ none | u ∷ t ↦ some (u ∷ t) ]
text_value _ = none

without_separators : Text → Text
without_separators = keep (λ u. not (u == b'_' || u == b'-'))

module _ ⦃c : CaseMap⦄ where
  unfoldable pub display_text : List (Text × Json) → List Text → Option Text
  unfolding text_value without_separators trim to_lower
  display_text [] names = none
  display_text ((key, value) ∷ o) names =
      let found = text_value value in
      let rest = display_text o names in
      if has names (to_lower (without_separators key)) then first found rest else rest

  first_nested : (List (Text × Json) → Option Text) → List (Text × Json) → Option Text
  first_nested f [] = none
  first_nested f ((k, obj o) ∷ rest) = first (f (entries o)) (first_nested f rest)
  first_nested f ((k, _) ∷ rest) = first_nested f rest

  abbrev direct_names : List Text
  direct_names = units "title" ∷ units "displayname" ∷ units "name" ∷ units "label" ∷ []

  -- displayName, by the levels that are left below this one.
  name_within : ℕ → List (Text × Json) → Option Text
  name_within zero o = display_text o direct_names
  name_within (suc levels) o =
      first (display_text o direct_names) (first_nested (name_within levels) o)

  unfoldable pub display_name : List (Text × Json) → Option Text
  unfolding name_within first_nested display_text
  display_name o = name_within 2 o
