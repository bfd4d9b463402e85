-- ===== src/Js/Radix/Binary.antt =====
-- Texts of binary digits, and the numbers they stand for.
use native.Mathlib.Nat.{pow-suc}
use beast_db.Prelude.{
  ℕ, zero, suc, ◌+◌, ◌-◌, ◌*◌, ◌^◌, ◌≤◌, ◌<◌, ◌≡◌, refl, sym, ◌∙◌, ◌≢◌, some, [], ◌∷◌, ◌++◌, arith,
  length, All, All-append, replicate, length-append, length-replicate, Bool-cases, inl, inr, ◌==◌,
}
use beast_db.Js.Text.{Text, pad_start}
use beast_db.Js.Radix.{digit, digit_value, to_radix, read_digits, parse_radix}
use beast_db.Js.Radix.Digits.{All-to_radix, to_radix-ne-nil}
use beast_db.Js.Radix.RoundTrip.{parse_radix-to_radix, length-to_radix}

abbrev pub IsBit : ℕ → Type 0
IsBit u = (b'0' ≤ u) × (u ≤ b'1')

-- The number that the digits stand for, after those of `acc`.
abbrev pub value : ℕ → Text → ℕ
value acc [] = acc
value acc (u ∷ s) = value (acc * 2 + (u - b'0')) s

read_digits-value : (acc : ℕ) (s : Text) → All IsBit s → read_digits 2 acc s ≡ some (value acc s)
unfolding read_digits digit_value
read_digits-value acc [] h = refl
read_digits-value acc (u ∷ s) (d, h) = ground (arith, read_digits-value (acc * 2 + (u - b'0')) s h)

pub parse_radix-value : (s : Text) → s ≢ [] → All IsBit s → parse_radix 2 s ≡ some (value 0 s)
unfolding parse_radix
parse_radix-value [] k h = absurd (k refl)
parse_radix-value (u ∷ s) k h = read_digits-value 0 (u ∷ s) h

value-acc : (acc : ℕ) (s : Text) → value acc s ≡ acc * 2 ^ length s + value 0 s
value-acc acc [] = omega arith
value-acc acc (u ∷ s) =
    let left = value-acc (acc * 2 + (u - b'0')) s in
    let right = value-acc (0 + (u - b'0')) s in grind (arith, left, right, pow-suc)

value-append_from :
    (acc : ℕ) (a b : Text) → value acc (a ++ b) ≡ value acc a * 2 ^ length b + value 0 b
value-append_from acc [] b = value-acc acc b
value-append_from acc (u ∷ a) b = value-append_from (acc * 2 + (u - b'0')) a b

pub value-append : (a b : Text) → value 0 (a ++ b) ≡ value 0 a * 2 ^ length b + value 0 b
value-append a b = value-append_from 0 a b

pub value-lt : (s : Text) → All IsBit s → value 0 s < 2 ^ length s
value-lt [] h = omega arith
value-lt (u ∷ s) (d, h) =
    let tail = value-acc (0 + (u - b'0')) s in
    let low = value-lt s h in
    elim (Bool-cases (u == b'0')) [
      | inl e ↦
          let none_more : 0 + (u - b'0') ≡ 0 = ground (arith, e) in
          grind (arith, low, pow-suc, rw none_more at tail)
      | inr e ↦
          let one_more : 0 + (u - b'0') ≡ 1 = ground (arith, e) in
          grind (arith, low, pow-suc, rw one_more at tail)
    ]

bits : (n : ℕ) → All IsBit (to_radix 2 n)
bits = All-to_radix IsBit 2 (omega arith) (λ d h. unfold digit in ground arith)

zeros : (k : ℕ) → All IsBit (replicate k b'0')
zeros zero = tt
zeros (suc k) = ((omega arith, omega arith), zeros k)

value-zeros : (k : ℕ) (s : Text) → value 0 (replicate k b'0' ++ s) ≡ value 0 s
value-zeros zero s = refl
value-zeros (suc k) s = value-zeros k s

-- The 64 digits of a number of 64 bits.
pub bits-pad_start :
    (n : ℕ)
    → n < 2 ^ 64
    → All IsBit (pad_start 64 (to_radix 2 n))
      × (length (pad_start 64 (to_radix 2 n)) ≡ 64)
      × (value 0 (pad_start 64 (to_radix 2 n)) ≡ n)
unfolding pad_start
bits-pad_start n h =
    let digits = to_radix 2 n in
    let k = 64 - length digits in
    let read : some (value 0 digits) ≡ some n =
      sym (parse_radix-value digits (to_radix-ne-nil 2 n) (bits n))
      ∙ parse_radix-to_radix 2 (omega arith) (omega arith) n in
    (
      All-append IsBit (replicate k b'0') digits (zeros k) (bits n),
      omega (
        arith,
        length-append (replicate k b'0') digits,
        length-replicate {A = ℕ} k b'0',
        length-to_radix 2 (omega arith) (omega arith) 63 n h,
      ),
      value-zeros k digits ∙ cc,
    )
