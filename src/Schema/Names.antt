-- ===== src/Schema/Names.antt =====
-- pluralize and formatCollectionName.
pub mod Plural
use mathlib.Core.List.{reverse}
use beast_db.Prelude.{
  true, false, ℕ, Bool, ◌&&◌, ◌||◌, not, List, [], ◌∷◌, ◌++◌, map, ◌==◌, any, if◌then◌else◌,
}
use beast_db.Js.Text.{Text, units, is_space, trim, join}
use beast_db.Js.Case.{CaseMap, is_upper, is_lower, lower_unit, to_lower, to_upper}
use beast_db.Js.Regex.{Regex, unit, seq, alt, lit_i, anything, test}

-- /^media$/i
unfoldable pub is_media : Regex
is_media = lit_i (units "media")

-- /s$/i
unfoldable pub ends_in_s : Regex
ends_in_s = seq anything (lit_i (units "s"))

-- /(sh|ch|x|z)$/i
unfoldable pub ends_in_hiss : Regex
ends_in_hiss = seq anything (
    alt (lit_i (units "sh"))
      (alt (lit_i (units "ch")) (alt (lit_i (units "x")) (lit_i (units "z")))))

-- /[^aeiou]y$/i
unfoldable pub ends_in_y : Regex
ends_in_y =
    seq anything
      (seq (unit (λ u. not (any (λ c. c == lower_unit u) (units "aeiou")))) (lit_i (units "y")))

-- w.slice(0, -1)
unfoldable pub but_last : Text → Text
but_last [] = []
but_last (u ∷ []) = []
but_last (u ∷ v ∷ s) = u ∷ but_last (v ∷ s)

unfoldable pub pluralize : Text → Text
unfolding but_last
pluralize word =
    if test is_media word
    then word
    else if test ends_in_s word
    then word
    else if test ends_in_hiss word
    then word ++ units "es"
    else if test ends_in_y word
    then but_last word ++ units "ies"
    else word ++ units "s"

-- replace(/([a-z])([A-Z])/g, "$1 $2")
unfoldable pub split_camel : Text → Text
split_camel [] = []
split_camel (u ∷ []) = u ∷ []
split_camel (u ∷ v ∷ s) =
    let rest = split_camel (v ∷ s) in if is_lower u && is_upper v then u ∷ b' ' ∷ rest else u ∷ rest

-- replace(/[_-]/g, " ")
unfoldable pub separators_to_spaces : Text → Text
separators_to_spaces = map (λ u. if u == b'_' || u == b'-' then b' ' else u)

push_word : Text → List Text → List Text
push_word [] ws = ws
push_word (u ∷ w) ws = reverse (u ∷ w) ∷ ws

-- split(/\s+/).filter(Boolean); the word under way is held in reverse.
words_from : Text → Text → List Text
words_from w [] = push_word w []
words_from w (u ∷ s) = elim (is_space u) [
  | true ↦ push_word w (words_from [] s)
  | false ↦ words_from (u ∷ w) s
]

unfoldable pub words : Text → List Text
unfolding words_from push_word is_space
words s = words_from [] s

module _ ⦃c : CaseMap⦄ where
  unfoldable pub capitalize : Text → Text
  unfolding to_upper to_lower
  capitalize [] = []
  capitalize (u ∷ s) = to_upper (u ∷ []) ++ to_lower s

  plural_last : List Text → List Text
  plural_last [] = []
  plural_last (w ∷ []) = pluralize w ∷ []
  plural_last (w ∷ v ∷ ws) = w ∷ plural_last (v ∷ ws)

  unfoldable pub format_collection_name : Text → Text
  unfolding plural_last capitalize split_camel separators_to_spaces words trim
  format_collection_name str =
      join (b' ' ∷ [])
        (plural_last (map capitalize (words (trim (separators_to_spaces (split_camel str))))))

-- What a test of these functions unfolds.
unfoldable pub names_run : Unit {0}
unfolding format_collection_name pluralize is_media ends_in_s ends_in_hiss ends_in_y test lower_unit
names_run = tt
