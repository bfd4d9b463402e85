-- ===== src/NewRecord/Keys.antt =====
-- The key of the form, its preview, and the check of the key.
use beast_db.Prelude.{
  ℕ, zero, suc, ◌^◌, ◌<◌, ◌≡◌, ◌≢◌, refl, some, ◌==◌, leb, true, false, [], ◌∷◌, All, arith, lt→ltb,
  inl, inr, Bool-cases,
}
use beast_db.Js.Text.{Text, trim}
use beast_db.Js.Radix.{to_radix}
use beast_db.Js.Radix.Digits.{IsDigit, All-IsDigit, Leads, to_radix-Leads}
use beast_db.Js.BigInt.{to_decimal}
use beast_db.Js.BigInt.Digits.{parse_big_int-to_decimal}
use beast_db.Js.Regex.{test, star, unit, is_digit}
use beast_db.Keys.Format.{structured_key, build_structured_key}
use beast_db.Keys.Format.Bounds.{fnv1a64-prints, fnv28-lt, structured_key-eq-sum}
use beast_db.NewRecord.{KeyMode, raw, builder, hash, Dialog, resolved_key, key_re, is_key}
use beast_db.NewRecord.View.{preview_of, preview_key}

test-digits : (s : Text) → All IsDigit s → test (star (unit is_digit)) s ≡ true
unfolding test
test-digits [] h = refl
test-digits (u ∷ s) (p, h) = ground (arith, test-digits s h)

test-key_re : (s : Text) → Leads s → All IsDigit s → test key_re s ≡ true
unfolding test key_re
test-key_re [] h k = absurd h
test-key_re (u ∷ s) (p, q) (r, k) =
    let no_zero : (u == b'0') ≡ false = ground arith in
    let from_one : leb b'1' u ≡ true = ground arith in
    let to_nine : leb u b'9' ≡ true = ground arith in
    rw (no_zero, from_one, to_nine) (test-digits s k)

pub test-to_decimal : (n : ℕ) → test key_re (to_decimal n) ≡ true
unfolding to_decimal
test-to_decimal zero = unfold test to_radix key_re in refl
test-to_decimal (suc n) = test-key_re (to_radix 10 (suc n)) (to_radix-Leads n) (All-IsDigit (suc n))

is_key-to_decimal : (n : ℕ) → n < 2 ^ 64 → is_key (to_decimal n) ≡ some true
unfolding is_key
is_key-to_decimal n h = rw (test-to_decimal n, parse_big_int-to_decimal n, lt→ltb n (2 ^ 64) h) refl

structured_key-lt :
    (prefix : ℕ) (domain item : Text) → prefix < 256 → structured_key prefix domain item < 2 ^ 64
structured_key-lt prefix domain item h =
    omega (arith, structured_key-eq-sum prefix domain item, fnv28-lt domain, fnv28-lt item)

resolved :
    (d : Dialog) (mode : KeyMode)
    → mode ≢ raw
    → d.prefix < 256
    → is_key (resolved_key (record d { key_mode = mode })) ≡ some true
unfolding resolved_key
resolved d raw h k = absurd (h refl)
resolved d hash h k =
    let (n, prints, small) = fnv1a64-prints (trim d.seed) in
    rw prints (is_key-to_decimal n (omega arith))
resolved d builder h k =
    unfold build_structured_key in
    is_key-to_decimal (structured_key d.prefix d.domain d.item_id)
      (structured_key-lt d.prefix d.domain d.item_id k)

preview_of-is_key : (k : Text) → is_key k ≡ some true → preview_of k ≡ some k
unfolding preview_of is_key
preview_of-is_key [] h = unfold test key_re in cc
preview_of-is_key (u ∷ k) h = elim (Bool-cases (test key_re (u ∷ k))) [
  | inl e ↦ rw e refl
  | inr e ↦ absurd (ground (arith, h, e))
]

-- Unless the key is typed as it is, the key of the form (that of a prefix below 256 and two seeds,
-- or of a hash) is accepted when the form is submitted, and is shown as the preview.
pub is_key-resolved_key :
    (d : Dialog)
    → d.key_mode ≢ raw
    → d.prefix < 256
    → (is_key (resolved_key d) ≡ some true) × (preview_key d ≡ some (resolved_key d))
unfolding preview_key
is_key-resolved_key d h k =
    let accepted = resolved d d.key_mode h k in
    (accepted, preview_of-is_key (resolved_key d) accepted)
