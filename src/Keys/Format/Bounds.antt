-- ===== src/Keys/Format/Bounds.antt =====
-- format.ts: the numbers of fnv28, fnv1a64 and buildStructuredKey.
use Prim.Native.Nat.{bit_and, bit_or}
use beast_db.Prelude.{
  take, drop, ◌++◌, ℕ, ◌+◌, ◌-◌, ◌*◌, ◌^◌, ◌≤◌, ◌<◌, ◌≡◌, refl, arith, some, length, length-append,
  length-take, length-drop,
}
use beast_db.Js.Text.{Text, units, take_last}
use beast_db.Js.Bits.{bit_and-mask, bit_or-field}
use beast_db.Js.Radix.{parse_radix}
use beast_db.Js.Radix.RoundTrip.{parse_radix-to_radix, length-to_radix}
use beast_db.Js.BigInt.{to_decimal}
use beast_db.Keys.Format.{fnv_loop, offset_basis, fnv1a64, fnv28, structured_key, format_key}

-- fnv28 gives a number of 28 bits, whatever the text.
pub fnv28-lt : (str : Text) → fnv28 str < 2 ^ 28
unfolding fnv28
fnv28-lt str = omega (arith, bit_and-mask 28 (fnv_loop offset_basis str))

-- fnv1a64 prints a number of 63 bits in at most 19 digits, and the digits read back as that number.
pub fnv1a64-reads :
    (str : Text)
    → (n : ℕ) × (parse_radix 10 (fnv1a64 str) ≡ some n) × (n < 2 ^ 63) × (length (fnv1a64 str) ≤ 19)
unfolding fnv1a64 to_decimal
fnv1a64-reads str =
    let n : ℕ = bit_and (fnv_loop offset_basis str) 0x7fffffffffffffff in
    let small : n < 2 ^ 63 = omega (arith, bit_and-mask 63 (fnv_loop offset_basis str)) in
    (
      n,
      parse_radix-to_radix 10 (omega arith) (omega arith) n,
      small,
      length-to_radix 10 (omega arith) (omega arith) 18 n (omega arith),
    )

-- fnv1a64 prints a number of 63 bits.
pub fnv1a64-prints : (str : Text) → (n : ℕ) × (fnv1a64 str ≡ to_decimal n) × (n < 2 ^ 63)
unfolding fnv1a64
fnv1a64-prints str = (
  bit_and (fnv_loop offset_basis str) 0x7fffffffffffffff,
  refl,
  omega (arith, bit_and-mask 63 (fnv_loop offset_basis str)),
)

-- The three fields do not overlap, so `|` is their sum.
pub structured_key-eq-sum :
    (prefix : ℕ) (domain item : Text)
    → structured_key prefix domain item ≡ prefix * 2 ^ 56 + fnv28 domain * 2 ^ 28 + fnv28 item
unfolding structured_key
structured_key-eq-sum prefix domain item =
    let d = fnv28-lt domain in
    let i = fnv28-lt item in
    let upper : bit_or (prefix * 2 ^ 56) (fnv28 domain * 2 ^ 28)
        ≡ (prefix * 2 ^ 28 + fnv28 domain) * 2 ^ 28 =
      omega (arith, bit_or-field 56 prefix (fnv28 domain * 2 ^ 28)) in
    rw upper (omega (arith, bit_or-field 28 (prefix * 2 ^ 28 + fnv28 domain) (fnv28 item)))

-- A shown key has at most 14 units.
pub length-format_key : (key : Text) → length (format_key key) ≤ 14
unfolding format_key take_last
length-format_key key = ground (
  arith,
  length-append (take 5 key ++ units "...") (drop (length key - 4) key),
  length-append (take 5 key) (units "..."),
  length-take 5 key,
  length-drop (length key - 4) key,
)
