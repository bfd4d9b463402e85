-- ===== src/Js/Radix.antt =====
-- Numerals: `n.toString(radix)` and reading digits back, for natural numbers.
pub mod RoundTrip
pub mod Digits
pub mod Binary
use beast_db.Prelude.{
  ℕ, zero, suc, ◌+◌, ◌-◌, ◌*◌, ◌/◌, ◌%◌, Bool, true, false, ◌&&◌, Option, none, some, [], ◌∷◌, ltb,
  leb, ◌==◌, if◌then◌else◌,
}
use beast_db.Js.Text.{Text}

-- The digit for 0 to 35.
unfoldable pub digit : ℕ → ℕ
digit d = if ltb d 10 then b'0' + d else b'a' + (d - 10)

-- The value of a digit in a base up to 36, or none.
unfoldable pub digit_value : ℕ → ℕ → Option ℕ
digit_value base u =
    if leb b'0' u && leb u b'9'
    then (if ltb (u - b'0') base then some (u - b'0') else none)
    else if leb b'a' u && leb u b'z'
    then (if ltb (u - b'a' + 10) base then some (u - b'a' + 10) else none)
    else if leb b'A' u && leb u b'Z'
    then (if ltb (u - b'A' + 10) base then some (u - b'A' + 10) else none)
    else none

-- Each round divides, so `n` rounds are enough.
digits_from : ℕ → ℕ → ℕ → Text → Text
digits_from zero base n out = out
digits_from (suc fuel) base zero out = out
digits_from (suc fuel) base (suc n) out =
    digits_from fuel base (suc n / base) (digit (suc n % base) ∷ out)

unfoldable pub to_radix : ℕ → ℕ → Text
unfolding digits_from digit
to_radix base zero = b'0' ∷ []
to_radix base (suc n) = digits_from (suc n) base (suc n) []

read_digits : ℕ → ℕ → Text → Option ℕ
read_digits base acc [] = some acc
read_digits base acc (u ∷ s) = elim (digit_value base u) [
  | none ↦ none
  | some d ↦ read_digits base (acc * base + d) s
]

-- At least one digit, and nothing else.
unfoldable pub parse_radix : ℕ → Text → Option ℕ
unfolding read_digits digit_value
parse_radix base [] = none
parse_radix base (u ∷ s) = read_digits base 0 (u ∷ s)
