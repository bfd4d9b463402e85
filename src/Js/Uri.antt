-- ===== src/Js/Uri.antt =====
-- encodeURIComponent: UTF-8 in percent-encoding, `none` for a surrogate with no partner (a URIError).
use mathlib.Core.Option
use beast_db.Prelude.{
  ℕ, ◌+◌, ◌-◌, ◌*◌, ◌/◌, ◌%◌, Bool, ◌&&◌, ◌||◌, Option, none, some, List, [], ◌∷◌, ◌++◌, ltb, leb,
  ◌==◌, any, if◌then◌else◌,
}
use beast_db.Js.Text.{Text, units}
use beast_db.Js.Case.{is_upper, is_lower, upper_unit}
use beast_db.Js.Radix.{digit}

-- The units that stay as they are.
unfoldable pub is_unreserved : ℕ → Bool
is_unreserved u =
    is_upper u || is_lower u || (leb b'0' u && leb u b'9') || any (λ c. c == u) (units "-_.!~*'()")

hex_digit : ℕ → ℕ
hex_digit d = upper_unit (digit d)

abbrev percent : List ℕ → Text
percent [] = []
percent (b ∷ bytes) = b'%' ∷ hex_digit (b / 16) ∷ hex_digit (b % 16) ∷ percent bytes

-- The UTF-8 bytes of a code point.
utf8 : ℕ → List ℕ
utf8 c =
    if ltb c 0x80
    then c ∷ []
    else if ltb c 0x800
    then (0xc0 + c / 64) ∷ (0x80 + c % 64) ∷ []
    else if ltb c 0x10000
    then (0xe0 + c / 4096) ∷ (0x80 + c / 64 % 64) ∷ (0x80 + c % 64) ∷ []
    else (0xf0 + c / 262144) ∷ (0x80 + c / 4096 % 64) ∷ (0x80 + c / 64 % 64) ∷ (0x80 + c % 64) ∷ []

encode_point : ℕ → Text
encode_point c = if is_unreserved c then c ∷ [] else percent (utf8 c)

is_high : ℕ → Bool
is_high u = leb 0xd800 u && ltb u 0xdc00

is_low : ℕ → Bool
is_low u = leb 0xdc00 u && ltb u 0xe000

unfoldable pub encode_uri_component : Text → Option Text
unfolding encode_point is_unreserved utf8 is_high is_low hex_digit digit upper_unit
encode_uri_component [] = some []
encode_uri_component (u ∷ []) = if is_high u || is_low u then none else some (encode_point u)
encode_uri_component (u ∷ v ∷ s) =
    if is_low u
    then none
    else if is_high u
    then (if is_low v
        then Option.map
            (λ rest. encode_point ((u - 0xd800) * 0x400 + (v - 0xdc00) + 0x10000) ++ rest)
            (encode_uri_component s)
        else none)
    else Option.map (λ rest. encode_point u ++ rest) (encode_uri_component (v ∷ s))
