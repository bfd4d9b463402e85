-- ===== src/Schema/Infer.antt =====
-- nameFromRecord, inferCollectionName and inferPartitionMeta.
pub mod Table
pub mod Scores
use beast_db.Prelude.{
  ℕ, ◌+◌, Bool, true, false, not, ◌&&◌, ◌||◌, Option, none, some, List, [], ◌∷◌, ◌++◌, max, or_else,
  ltb, leb, ◌==◌, length, if◌then◌else◌,
}
use beast_db.Prelude.Sort.{sort, descending}
use beast_db.Js.Text.{Text, units, same, trim, includes, is_space}
use beast_db.Js.Case.{CaseMap, lower_unit}
use beast_db.Js.Regex.{Regex, unit, seq, alt, plus, times, at_most, is_digit, test}
use beast_db.Types.{
  PayloadFormat, json_object, json_array, token, string, binary, empty, UniversalRecord,
  PartitionMeta,
}
use beast_db.Schema.Fields.{Candidate, candidate, name_from_fields}
use beast_db.Keys.Registry.{generic_prefix, get_deterministic_color, hex_byte}

not_at : Regex
not_at = plus (unit (λ u. not (is_space u) && not (u == b'@')))

-- /^[^\s@]+@[^\s@]+\.[^\s@]+$/
unfoldable pub email_re : Regex
unfolding not_at
email_re =
    seq not_at (seq (unit (λ u. u == b'@')) (seq not_at (seq (unit (λ u. u == b'.')) not_at)))

hex_digit : Regex
hex_digit = unit (λ u. is_digit u || (leb b'a' (lower_unit u) && leb (lower_unit u) b'f'))

dash : Regex
dash = unit (λ u. u == b'-')

-- 8-4-4-4-12 hexadecimal digits, or 32 to 64 of them. The flag `i` is for both.
unfoldable pub uuid_hex_re : Regex
unfolding hex_digit dash
uuid_hex_re =
    alt
      (seq (times 8 hex_digit) (
        seq dash (
          seq (times 4 hex_digit) (
            seq dash (
              seq (times 4 hex_digit)
                (seq dash (seq (times 4 hex_digit) (seq dash (times 12 hex_digit)))))))))
      (seq (times 32 hex_digit) (at_most 32 hex_digit))

abbrev pub is_token : PayloadFormat → Bool
is_token token = true
is_token _ = false

abbrev pub is_string : PayloadFormat → Bool
is_string string = true
is_string _ = false

abbrev pub is_empty : PayloadFormat → Bool
is_empty empty = true
is_empty _ = false

abbrev pub is_blank : Text → Bool
is_blank [] = true
is_blank (u ∷ s) = false

name_from_string : UniversalRecord → Option Candidate
name_from_string r =
    if is_token r.format
      || (is_string r.format && (includes r.raw (units "|") && ltb (length r.raw) 250))
    then candidate (units "Tokens") 3
    else if is_string r.format
    then (if test email_re (trim r.raw)
        then candidate (units "User Index") 3
        else if test uuid_hex_re (trim r.raw)
        then candidate (units "Index Pointers") 2
        else none)
    else none

pub record Score : Type 0 where
  pub label : Text
  pub score : ℕ
  pub count : ℕ
  pub confidence : ℕ

-- scores.set, with the scores so far or zeros; a Map keeps the order of insertion.
add_score : Candidate → List Score → List Score
add_score k [] =
    record { label = k.label; score = k.confidence; count = 1; confidence = k.confidence } ∷ []
add_score k (s ∷ scores) =
    if same s.label k.label
    then record {
      label = s.label;
      score = s.score + k.confidence;
      count = s.count + 1;
      confidence = max s.confidence k.confidence;
    }
      ∷ scores
    else s ∷ add_score k scores

pub add_candidate : Option Candidate → List Score → List Score
unfolding add_score
add_candidate none scores = scores
add_candidate (some k) scores = add_score k scores

-- `continue` passes these over.
abbrev pub is_readable : UniversalRecord → Bool
is_readable r = not (is_empty r.format) && not (is_blank (trim r.raw))

pub decide_label : List Score → ℕ → Option Text
decide_label [] readable = none
decide_label (best ∷ others) readable =
    if leb best.confidence 2 && not (best.count == readable) then none else some best.label

module _ ⦃c : CaseMap⦄ where
  unfoldable pub name_from_record : UniversalRecord → Option Candidate
  unfolding name_from_string
  name_from_record r = elim r.fields [ none ↦ name_from_string r | some f ↦ name_from_fields f ]

  -- The loop: the scores and the number of readable records.
  tally : List UniversalRecord → List Score → ℕ → List Score × ℕ
  tally [] scores readable = (scores, readable)
  tally (r ∷ records) scores readable =
      let named = is_readable r in
      tally records (if named then add_candidate (name_from_record r) scores else scores)
        (if named then readable + 1 else readable)

  unfoldable pub infer_collection_name : List UniversalRecord → Option Text
  unfolding tally add_candidate decide_label sort
  infer_collection_name records =
      let (scores, readable) = tally records [] 0 in
      decide_label (sort (descending (λ s. s.score)) scores) readable

  unfoldable pub infer_partition_meta : List UniversalRecord → ℕ → PartitionMeta
  infer_partition_meta records prefix = record {
    label = or_else (infer_collection_name records) (generic_prefix ++ hex_byte prefix);
    color = get_deterministic_color prefix;
    description = none;
  }
