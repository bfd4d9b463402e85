-- ===== src/Js/Radix/RoundTrip.antt =====
-- Reading printed numerals, and their length.
use Prim.Native.Nat.pow
use native.Mathlib.Nat.{div-add-mod', mod-lt, div-lt_self, div-lt_iff_lt-mul, pow-suc}
use beast_db.Prelude.{
  ◌∙◌, ℕ, zero, suc, ◌+◌, ◌*◌, ◌/◌, ◌%◌, ◌^◌, ◌≤◌, ◌<◌, ◌≡◌, refl, some, [], ◌∷◌, arith, length,
}
use beast_db.Js.Text.{Text}
use beast_db.Js.Radix.{digit, digit_value, digits_from, to_radix, read_digits, parse_radix}

pub digit_value-digit : (base d : ℕ) → d < base → base ≤ 36 → digit_value base (digit d) ≡ some d
unfolding digit digit_value
digit_value-digit base d h k = ground arith

module _ (base : ℕ) (two : 2 ≤ base) (most : base ≤ 36) where
  read_digits-digit :
      (acc d : ℕ) (s : Text)
      → d < base
      → read_digits base acc (digit d ∷ s) ≡ read_digits base (acc * base + d) s
  unfolding read_digits
  read_digits-digit acc d s h = rw (digit_value-digit base d h most, read_digits)

  read_digits-digits_from :
      (fuel n : ℕ) (out : Text)
      → n ≤ fuel
      → read_digits base 0 (digits_from fuel base n out) ≡ read_digits base n out
  unfolding digits_from
  read_digits-digits_from zero zero out h = refl
  read_digits-digits_from zero (suc n) out h = absurd (omega arith)
  read_digits-digits_from (suc fuel) zero out h = refl
  read_digits-digits_from (suc fuel) (suc n) out h =
      let less : suc n / base < suc n = div-lt_self (omega arith) two in
      let small : suc n % base < base = mod-lt (suc n) (omega arith) in
      read_digits-digits_from fuel (suc n / base) (digit (suc n % base) ∷ out) (omega arith)
      ∙ (read_digits-digit (suc n / base) (suc n % base) out small ∙ rw (div-add-mod' (suc n) base))

  digits_from-cons :
      (fuel n d : ℕ) (out : Text)
      → (e : ℕ) × (s : Text) × (digits_from fuel base n (d ∷ out) ≡ e ∷ s)
  unfolding digits_from
  digits_from-cons zero n d out = (d, out, refl)
  digits_from-cons (suc fuel) zero d out = (d, out, refl)
  digits_from-cons (suc fuel) (suc n) d out =
      digits_from-cons fuel (suc n / base) (digit (suc n % base)) (d ∷ out)

  -- Reading the digits of `to_radix` gives the number.
  pub parse_radix-to_radix : (n : ℕ) → parse_radix base (to_radix base n) ≡ some n
  unfolding to_radix parse_radix
  parse_radix-to_radix zero = ground (arith, two)
  parse_radix-to_radix (suc n) =
      let (e, s, shape) = digits_from-cons n (suc n / base) (digit (suc n % base)) [] in
      let back = read_digits-digits_from (suc n) (suc n) [] (omega arith) in
      unfold digits_from read_digits in rw shape (rw shape at back)

  length-digits_from :
      (k fuel n : ℕ) (out : Text)
      → n < base ^ k
      → length (digits_from fuel base n out) ≤ length out + k
  unfolding digits_from
  length-digits_from k zero n out h = omega arith
  length-digits_from k (suc fuel) zero out h = omega arith
  length-digits_from zero (suc fuel) (suc n) out h = absurd (omega (arith, pow.zero base))
  length-digits_from (suc k) (suc fuel) (suc n) out h = omega (
    arith,
    length-digits_from k fuel (suc n / base) (digit (suc n % base) ∷ out)
        ((div-lt_iff_lt-mul (omega arith)).1 (rw pow-suc at h)),
  )

  -- A number below base ^ k, and not 0 digits, has at most k of them.
  pub length-to_radix : (k n : ℕ) → n < base ^ suc k → length (to_radix base n) ≤ suc k
  unfolding to_radix
  length-to_radix k zero h = omega arith
  length-to_radix k (suc n) h = omega (arith, length-digits_from (suc k) (suc n) (suc n) [] h)
