-- ===== src/Js/Radix/Digits.antt =====
-- The characters of a printed numeral.
use native.Mathlib.Nat.{mod-lt}
use beast_db.Prelude.{
  ℕ, zero, suc, ◌/◌, ◌%◌, ◌<◌, ◌≤◌, ◌≡◌, refl, ◌≢◌, ◌⊎◌, inl, inr, [], ◌∷◌, arith, All, Bool-cases,
  ◌==◌, ==_iff,
}
use beast_db.Js.Text.{Text}
use beast_db.Js.Radix.{digit, digits_from, to_radix}

module _ (P : ℕ → Type 0) (base : ℕ) (two : 2 ≤ base)
    (every : (d : ℕ) → d < base → P (digit d)) where
  All-digits_from : (fuel n : ℕ) (out : Text) → All P out → All P (digits_from fuel base n out)
  unfolding digits_from
  All-digits_from zero n out h = h
  All-digits_from (suc fuel) zero out h = h
  All-digits_from (suc fuel) (suc n) out h =
      All-digits_from fuel (suc n / base) (digit (suc n % base) ∷ out)
        (every (suc n % base) (mod-lt (suc n) (omega arith)), h)

  -- What holds of every digit of the base holds of every character of a numeral.
  pub All-to_radix : (n : ℕ) → All P (to_radix base n)
  unfolding to_radix
  All-to_radix zero = (unfold digit in every 0 (omega arith), tt)
  All-to_radix (suc n) = All-digits_from (suc n) (suc n) [] tt

module _ (base : ℕ) where
  digits_from-ne-nil : (fuel n d : ℕ) (out : Text) → digits_from fuel base n (d ∷ out) ≢ []
  unfolding digits_from
  digits_from-ne-nil zero n d out e = cc
  digits_from-ne-nil (suc fuel) zero d out e = cc
  digits_from-ne-nil (suc fuel) (suc n) d out e =
      digits_from-ne-nil fuel (suc n / base) (digit (suc n % base)) (d ∷ out) e

  pub to_radix-ne-nil : (n : ℕ) → to_radix base n ≢ []
  unfolding to_radix digits_from
  to_radix-ne-nil zero e = cc
  to_radix-ne-nil (suc n) e = digits_from-ne-nil n (suc n / base) (digit (suc n % base)) [] e

abbrev pub IsDigit : ℕ → Type 0
IsDigit u = (b'0' ≤ u) × (u ≤ b'9')

digit-IsDigit : (d : ℕ) → d < 10 → IsDigit (digit d)
unfolding digit
digit-IsDigit d h = ground arith

pub All-IsDigit : (n : ℕ) → All IsDigit (to_radix 10 n)
All-IsDigit = All-to_radix IsDigit 10 (omega arith) digit-IsDigit

-- Does the numeral begin with a digit from 1 to 9?
abbrev pub Leads : Text → Type 0
Leads [] = ⊥
Leads (u ∷ s) = (b'1' ≤ u) × (u ≤ b'9')

digit-Leads : (d : ℕ) → d < 10 → d ≢ 0 → (b'1' ≤ digit d) × (digit d ≤ b'9')
unfolding digit
digit-Leads d h k = ground (arith, λ (e : d ≡ 0). k e)

quotient-or-rest : (n : ℕ) → (suc n / 10 ≢ 0) ⊎ (suc n % 10 ≢ 0)
quotient-or-rest n = elim (Bool-cases (suc n % 10 == 0)) [
  | inl e ↦
      let none_left : suc n % 10 ≡ 0 = (==_iff _ 0).0 e in inl (λ (z : suc n / 10 ≡ 0). omega arith)
  | inr e ↦ inr (λ (z : suc n % 10 ≡ 0). ground arith)
]

digits_from-Leads :
    (fuel n d : ℕ) (out : Text)
    → n ≤ fuel
    → d < 10
    → (n ≢ 0) ⊎ (d ≢ 0)
    → Leads (digits_from fuel 10 n (digit d ∷ out))
unfolding digits_from
digits_from-Leads zero n d out h k (inl e) = absurd (e (omega arith))
digits_from-Leads zero n d out h k (inr e) = digit-Leads d k e
digits_from-Leads (suc fuel) zero d out h k (inl e) = absurd (e refl)
digits_from-Leads (suc fuel) zero d out h k (inr e) = digit-Leads d k e
digits_from-Leads (suc fuel) (suc n) d out h k e =
    digits_from-Leads fuel (suc n / 10) (suc n % 10) (digit d ∷ out) (omega arith) (omega arith)
      (quotient-or-rest n)

pub to_radix-Leads : (n : ℕ) → Leads (to_radix 10 (suc n))
unfolding to_radix digits_from
to_radix-Leads n =
    digits_from-Leads n (suc n / 10) (suc n % 10) [] (omega arith) (omega arith)
      (quotient-or-rest n)
