-- ===== src/Display.antt =====
-- studio/src/utils/display.ts: labels of formats and fields, and the preview line of a record.
pub mod Preview
use beast_db.Prelude.{
  ℕ, Bool, true, false, not, ◌&&◌, ◌||◌, Option, none, some, List, [], ◌∷◌, ◌++◌, map, or_else,
  keep, take, length, leb, ◌==◌, if◌then◌else◌,
}
use beast_db.Js.Text.{Text, units, join, trim, has, is_space}
use beast_db.Js.Case.{CaseMap, is_upper, is_lower, to_upper}
use beast_db.Js.BigInt.{to_decimal}
use beast_db.Js.Regex.{is_digit}
use beast_db.Types.{
  PayloadFormat, json_object, json_array, token, string, binary, empty, Attribute, UniversalRecord,
}

unfoldable pub format_label : PayloadFormat → Text
format_label json_object = units "Document"
format_label json_array = units "List"
format_label token = units "Delimited text"
format_label string = units "Text"
format_label binary = units "Binary data"
format_label empty = units "Empty record"

abbrev is_low : ℕ → Bool
is_low u = is_lower u || is_digit u

-- replace(/([a-z\d])([A-Z])/g, "$1 $2"); the flag says that the unit before may be a `$1`.
unfoldable pub split_words : Bool → Text → Text
split_words low [] = []
split_words low (u ∷ s) =
    let rest = u ∷ split_words (is_low u) s in if low && is_upper u then b' ' ∷ rest else rest

-- replace(/p+/g, " "); the flag says that the unit before is of the run.
unfoldable pub squeeze : (ℕ → Bool) → Bool → Text → Text
squeeze p inside [] = []
squeeze p inside (u ∷ s) =
    let rest = squeeze p (p u) s in if p u then (if inside then rest else b' ' ∷ rest) else u ∷ rest

abbrev is_separator : ℕ → Bool
is_separator u = (u == b'_') || (u == b'-')

-- \w
abbrev is_word_unit : ℕ → Bool
is_word_unit u = is_upper u || is_lower u || is_digit u || (u == b'_')

abbrev begins_word : Text → Bool
begins_word [] = false
begins_word (u ∷ s) = is_word_unit u

-- replace(/\bId\b/g, "ID"); the flags say that the unit before is of a word, and that it is an `I`
-- that begins one.
unfoldable pub upper_id : Bool → Bool → Text → Text
upper_id in_word after_i [] = []
upper_id in_word after_i (u ∷ s) =
    (if after_i && (u == b'd') && not (begins_word s) then b'D' else u)
    ∷ upper_id (is_word_unit u) ((u == b'I') && not in_word) s

-- A `.` is no line terminator.
abbrev is_line_end : ℕ → Bool
is_line_end u = (u == 10) || (u == 13) || (u == 0x2028) || (u == 0x2029)

unfoldable pub field_parts : Text → Text
unfolding split_words squeeze
field_parts name =
    trim (squeeze is_space false (squeeze is_separator false (split_words false name)))

-- The attributes that are no part of a preview.
abbrev named_keys : List Text
named_keys = units "name" ∷ units "title" ∷ units "displayName" ∷ units "username" ∷ units "id" ∷ []

-- Where a record has neither a secondary label nor a summary.
unfoldable pub plain_preview : UniversalRecord → Text
unfolding format_label to_decimal
plain_preview r = elim r.format [
  | json_array ↦ to_decimal (length (or_else r.array_items [])) ++ units " items"
  | empty ↦ units "No value"
  | f ↦ format_label f
]

-- a || b
abbrev pub or_text : Text → Text → Text
or_text [] b = b
or_text (u ∷ s) b = u ∷ s

module _ ⦃c : CaseMap⦄ where
  -- replace(/^./, (first) => first.toUpperCase())
  upper_first : Text → Text
  unfolding to_upper
  upper_first [] = []
  upper_first (u ∷ s) = if is_line_end u then u ∷ s else to_upper (u ∷ []) ++ s

  unfoldable pub field_label : Text → Text
  unfolding field_parts upper_first upper_id
  field_label name = upper_id false false (upper_first (field_parts name))

  unfoldable pub field_summary : List Attribute → Text
  unfolding field_label
  field_summary list = join (units " · ") (
      map (λ a. field_label a.key ++ units ": " ++ a.value)
        (take 2 (keep (λ a. not (has named_keys a.key)) list)))

  unfoldable pub record_preview : UniversalRecord → Text
  unfolding field_summary plain_preview
  record_preview r = or_text r.secondary_label (
      or_text (elim r.fields [ none ↦ [] | some f ↦ field_summary r.attributes ]) (plain_preview r))
