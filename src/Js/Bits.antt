-- ===== src/Js/Bits.antt =====
-- `|` of disjoint fields and `&` with a mask of low bits, as arithmetic.
use Prim.Native.Nat.{bit_and, bit_or, bitwise, digits, bit_and-bitwise, bit_or-bitwise}
use native.Mathlib.Nat.{pow-suc, one-le-pow, div-add-mod'}
use beast_db.Prelude.{
  ℕ, zero, suc, ◌+◌, ◌-◌, ◌*◌, ◌/◌, ◌%◌, ◌^◌, ◌≤◌, ◌<◌, min, max, ◌≡◌, refl, ap, arith,
}

-- The recursion behind the native operations does not depend on its fuel.
module _ (base : ℕ → ℕ) (op : ℕ → ℕ → ℕ) where
  fuel_irrelevant : (a b f g : ℕ) → a ≤ f → a ≤ g → digits base op f a b ≡ digits base op g a b
  fuel_irrelevant zero b zero zero p q = refl
  fuel_irrelevant zero b zero (suc g) p q = refl
  fuel_irrelevant zero b (suc f) zero p q = refl
  fuel_irrelevant zero b (suc f) (suc g) p q = refl
  fuel_irrelevant (suc a) b zero g p q = absurd (omega arith)
  fuel_irrelevant (suc a) b (suc f) zero p q = absurd (omega arith)
  fuel_irrelevant (suc a) b (suc f) (suc g) p q =
      ap (λ (t : ℕ). t * 2 + op (suc a % 2) (b % 2))
        (fuel_irrelevant (suc a / 2) (b / 2) f g (omega arith) (omega arith))

  last_digit :
      (a b : ℕ)
      → bitwise base op (suc a) b ≡ bitwise base op (suc a / 2) (b / 2) * 2 + op (suc a % 2) (b % 2)
  last_digit a b =
      ap (λ (t : ℕ). t * 2 + op (suc a % 2) (b % 2))
        (fuel_irrelevant (suc a / 2) (b / 2) a (suc a / 2) (omega arith) (omega arith))

pub bit_or-last : (a b : ℕ) → bit_or a b ≡ bit_or (a / 2) (b / 2) * 2 + max (a % 2) (b % 2)
bit_or-last zero b = omega (arith, bit_or-bitwise 0 b, bit_or-bitwise 0 (b / 2))
bit_or-last (suc a) b = omega (
  arith,
  bit_or-bitwise (suc a) b,
  bit_or-bitwise (suc a / 2) (b / 2),
  last_digit (λ y. y) max a b,
)

pub bit_and-last : (a b : ℕ) → bit_and a b ≡ bit_and (a / 2) (b / 2) * 2 + min (a % 2) (b % 2)
bit_and-last zero b = omega (arith, bit_and-bitwise 0 b, bit_and-bitwise 0 (b / 2))
bit_and-last (suc a) b = omega (
  arith,
  bit_and-bitwise (suc a) b,
  bit_and-bitwise (suc a / 2) (b / 2),
  last_digit (λ y. 0) min a b,
)

below_zero : (n a : ℕ) → a ≤ n → (bit_or a 0 ≡ a) × (bit_and a 0 ≡ 0)
below_zero n zero h = (refl, refl)
below_zero zero (suc a) h = absurd (omega arith)
below_zero (suc n) (suc a) h =
    let (or, and) = below_zero n (suc a / 2) (omega arith) in
    (omega (arith, bit_or-last (suc a) 0, or), omega (arith, bit_and-last (suc a) 0, and))

pub bit_or-zero : (a : ℕ) → bit_or a 0 ≡ a
bit_or-zero a = (below_zero a a (omega arith)).0

pub bit_and-zero : (a : ℕ) → bit_and a 0 ≡ 0
bit_and-zero a = (below_zero a a (omega arith)).1

double : (q k : ℕ) → q * 2 ^ suc k ≡ q * 2 ^ k * 2
double q k = rw (pow-suc 2 k) (omega arith)

-- A field of `k` bits below a shifted one.
pub bit_or-field : (k q r : ℕ) → r < 2 ^ k → bit_or (q * 2 ^ k) r ≡ q * 2 ^ k + r
bit_or-field zero q r h = ground (arith, bit_or-zero q)
bit_or-field (suc k) q r h =
    let less : r / 2 < 2 ^ k = omega (arith, pow-suc 2 k) in
    ground (arith, bit_or-last (q * 2 ^ suc k) r, double q k, bit_or-field k q (r / 2) less)

bit_and-field : (k q r : ℕ) → r < 2 ^ k → bit_and (q * 2 ^ k + r) (2 ^ k - 1) ≡ r
bit_and-field zero q r h = rw bit_and-zero (omega arith)
bit_and-field (suc k) q r h =
    let less : r / 2 < 2 ^ k = omega (arith, pow-suc 2 k) in
    let pos : 1 ≤ 2 ^ k = one-le-pow k 2 (omega arith) in
    let half : (q * 2 ^ suc k + r) / 2 ≡ q * 2 ^ k + r / 2 = omega (arith, double q k) in
    let bit : (q * 2 ^ suc k + r) % 2 ≡ r % 2 = omega (arith, double q k) in
    let mask : (2 ^ suc k - 1) / 2 ≡ 2 ^ k - 1 = omega (arith, pow-suc 2 k) in
    let one : (2 ^ suc k - 1) % 2 ≡ 1 = omega (arith, pow-suc 2 k) in
    rw (bit_and-last, half, bit, mask, one, bit_and-field k q (r / 2) less) (omega arith)

-- `a & (2 ** k - 1)`.
pub bit_and-mask : (k a : ℕ) → bit_and a (2 ^ k - 1) ≡ a % 2 ^ k
bit_and-mask k a =
    let pos : 1 ≤ 2 ^ k = one-le-pow k 2 (omega arith) in
    let field = bit_and-field k (a / 2 ^ k) (a % 2 ^ k) (omega arith) in
    rw (div-add-mod' a (2 ^ k)) at field
