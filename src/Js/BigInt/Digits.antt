-- ===== src/Js/BigInt/Digits.antt =====
-- BigInt on the numerals that String prints.
use mathlib.Core.Option
use beast_db.Prelude.{ℕ, ◌≡◌, ◌≢◌, refl, ap, ◌∙◌, false, some, [], ◌∷◌, arith, All}
use beast_db.Js.Text.{Text, is_space}
use beast_db.Js.Text.Trim.{NoSpace, trim_id}
use beast_db.Js.Radix.{parse_radix, to_radix}
use beast_db.Js.Radix.Digits.{IsDigit, All-IsDigit, to_radix-ne-nil}
use beast_db.Js.Radix.RoundTrip.{parse_radix-to_radix}
use beast_db.Js.BigInt.{pos, signed, parse_big_int, to_decimal}

is_space_digit : (u : ℕ) → IsDigit u → is_space u ≡ false
unfolding is_space
is_space_digit u h = ground arith

All-NoSpace : (s : Text) → All IsDigit s → All NoSpace s
All-NoSpace [] h = tt
All-NoSpace (u ∷ s) (p, h) = (is_space_digit u p, All-NoSpace s h)

signed_digits : (s : Text) → All IsDigit s → s ≢ [] → signed s ≡ Option.map pos (parse_radix 10 s)
unfolding signed
signed_digits [] h k = absurd (k refl)
signed_digits (u ∷ []) h k = refl
signed_digits (u ∷ v ∷ s) (p, (q, h)) k = ground arith

-- A text of digits alone is read as the number that it prints.
pub parse_big_int-digits :
    (s : Text) → All IsDigit s → s ≢ [] → parse_big_int s ≡ Option.map pos (parse_radix 10 s)
unfolding parse_big_int
parse_big_int-digits s h k = rw (trim_id s (All-NoSpace s h)) (signed_digits s h k)

pub parse_big_int-to_decimal : (n : ℕ) → parse_big_int (to_decimal n) ≡ some (pos n)
unfolding to_decimal
parse_big_int-to_decimal n =
    parse_big_int-digits (to_radix 10 n) (All-IsDigit n) (to_radix-ne-nil 10 n)
    ∙ ap (Option.map pos) (parse_radix-to_radix 10 (omega arith) (omega arith) n)
