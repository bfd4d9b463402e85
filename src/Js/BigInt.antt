-- ===== src/Js/BigInt.antt =====
-- BigInt: reading a string, the shifts, `&` with a mask, and printing in a base.
pub mod Digits
use Prim.Native.Nat.{bit_and}
use mathlib.Core.Option
use beast_db.Prelude.{
  ℕ, zero, suc, ◌+◌, ◌-◌, ◌/◌, ◌^◌, Bool, ◌||◌, Option, some, [], ◌∷◌, ◌==◌, if◌then◌else◌,
}
use beast_db.Js.Text.{Text, trim}
use beast_db.Js.Radix.{to_radix, parse_radix}

-- `negsuc n` is -(n + 1).
pub data ℤ : Type 0 where
  pos : ℕ → ℤ
  negsuc : ℕ → ℤ

abbrev pub negate : ℕ → ℤ
negate zero = pos 0
negate (suc n) = negsuc n

is_marker : ℕ → ℕ → Bool
is_marker base u = (u == base) || (u + 32 == base)

-- The literals with a prefix; they take no sign.
after_zero : ℕ → Text → Option ℕ
unfolding is_marker
after_zero u s =
    if is_marker b'x' u
    then parse_radix 16 s
    else if is_marker b'o' u
    then parse_radix 8 s
    else if is_marker b'b' u
    then parse_radix 2 s
    else parse_radix 10 (b'0' ∷ u ∷ s)

signed : Text → Option ℤ
unfolding after_zero
signed [] = some (pos 0)
signed (u ∷ []) = Option.map pos (parse_radix 10 (u ∷ []))
signed (u ∷ v ∷ s) =
    if u == b'-'
    then Option.map negate (parse_radix 10 (v ∷ s))
    else if u == b'+'
    then Option.map pos (parse_radix 10 (v ∷ s))
    else if u == b'0'
    then Option.map pos (after_zero v s)
    else Option.map pos (parse_radix 10 (u ∷ v ∷ s))

-- BigInt(s): `none` is the SyntaxError.
unfoldable pub parse_big_int : Text → Option ℤ
unfolding signed
parse_big_int s = signed (trim s)

-- n >> k rounds down.
abbrev pub shift_right : ℤ → ℕ → ℤ
shift_right (pos n) k = pos (n / 2 ^ k)
shift_right (negsuc n) k = negsuc (n / 2 ^ k)

-- n & m, for 0 ≤ m: a negative n is the complement of the digits of -(n + 1).
abbrev pub mask : ℤ → ℕ → ℕ
mask (pos n) m = bit_and n m
mask (negsuc n) m = m - bit_and n m

-- n.toString(16)
unfoldable pub to_hex : ℤ → Text
to_hex (pos n) = to_radix 16 n
to_hex (negsuc n) = b'-' ∷ to_radix 16 (n + 1)

-- String(n)
unfoldable pub to_decimal : ℕ → Text
to_decimal n = to_radix 10 n
