-- ===== src/Views/Engine/Bits.antt =====
-- KeyBitSlicer.tsx, against decodeKey.
use beast_db.Prelude.{
  ℕ, zero, suc, ◌+◌, ◌*◌, ◌/◌, ◌%◌, ◌^◌, ◌<◌, ◌≡◌, refl, sym, ◌∙◌, ap, some, List, [], ◌∷◌, ◌++◌,
  All, take, drop, length, length-take, length-drop, length-append, arith, append-take-drop,
}
use beast_db.Js.Text.{Text, pad_start}
use beast_db.Js.Radix.{to_radix, parse_radix}
use beast_db.Js.Radix.Binary.{
  IsBit, value, parse_radix-value, value-append, value-lt, bits-pad_start,
}
use beast_db.Js.BigInt.{to_decimal}
use beast_db.Js.BigInt.Digits.{parse_big_int-to_decimal}
use beast_db.Keys.Registry.{Registries}
use beast_db.Keys.Decoder.{KeyDecoded, decode_key}
use beast_db.Keys.Decoder.RoundTrip.{decode_key-to_decimal}
use beast_db.Views.Engine.{Slices, slices_of, slices, binary}

-- The three parts make up the bits, and stand for the parts of the decoded key.
pub record AreOf (d : KeyDecoded) (s : Slices) : Type 0 where
  pub whole : s.prefix_bits ++ (s.user_bits ++ s.item_bits) ≡ s.bits
  pub prefix : parse_radix 2 s.prefix_bits ≡ some d.prefix
  pub user : parse_radix 2 s.user_bits ≡ some d.user_hash
  pub item : parse_radix 2 s.item_bits ≡ some d.item_hash

module _ {A : Type 0} where
  drop-drop : (m n k : ℕ) (xs : List A) → k ≡ m + n → drop n (drop m xs) ≡ drop k xs
  drop-drop zero n k xs e = let same : k ≡ n = omega (arith, e) in rw same refl
  drop-drop (suc m) zero zero xs e = absurd (omega (arith, e))
  drop-drop (suc m) (suc n) zero xs e = absurd (omega (arith, e))
  drop-drop (suc m) zero (suc k) [] e = refl
  drop-drop (suc m) (suc n) (suc k) [] e = refl
  drop-drop (suc m) n (suc k) (x ∷ xs) e = drop-drop m n k xs (omega (arith, e))

  take-length : (n : ℕ) (xs : List A) → length xs ≡ n → take n xs ≡ xs
  take-length zero [] h = refl
  take-length zero (x ∷ xs) h = absurd (omega (arith, h))
  take-length (suc n) [] h = refl
  take-length (suc n) (x ∷ xs) h = ap (λ r. x ∷ r) (take-length n xs (omega (arith, h)))

take-AllBits : (n : ℕ) (s : Text) → All IsBit s → All IsBit (take n s)
take-AllBits zero s h = tt
take-AllBits (suc n) [] h = tt
take-AllBits (suc n) (u ∷ s) (d, h) = (d, take-AllBits n s h)

drop-AllBits : (n : ℕ) (s : Text) → All IsBit s → All IsBit (drop n s)
drop-AllBits zero s h = h
drop-AllBits (suc n) [] h = tt
drop-AllBits (suc n) (u ∷ s) (d, h) = drop-AllBits n s h

parse_part :
    (s : Text) (n : ℕ) → 0 < length s → All IsBit s → value 0 s ≡ n → parse_radix 2 s ≡ some n
parse_part [] n k h e = absurd (omega (arith, k))
parse_part (u ∷ s) n k h e = parse_radix-value (u ∷ s) (λ f. cc) h ∙ ap some e

-- The numbers of three parts of 8, 28 and 28 bits.
parts_of :
    (a b c : Text) (n : ℕ)
    → length a ≡ 8
    → length b ≡ 28
    → length c ≡ 28
    → All IsBit a
    → All IsBit b
    → All IsBit c
    → value 0 (a ++ (b ++ c)) ≡ n
    → (value 0 a ≡ n / 2 ^ 56 % 2 ^ 8)
      × (value 0 b ≡ n / 2 ^ 28 % 2 ^ 28)
      × (value 0 c ≡ n % 2 ^ 28)
parts_of a b c n la lb lc ba bb bc e =
    let low = value-append b c in
    let all = value-append a (b ++ c) in
    let lbc : length (b ++ c) ≡ 56 = omega (arith, length-append b c, lb, lc) in
    let fa = value-lt a ba in
    let fb = value-lt b bb in
    let fc = value-lt c bc in
    let low' : value 0 (b ++ c) ≡ value 0 b * 2 ^ 28 + value 0 c = rw lc at low in
    let all' : value 0 (a ++ (b ++ c)) ≡ value 0 a * 2 ^ 56 + value 0 (b ++ c) = rw lbc at all in
    let fa' : value 0 a < 2 ^ 8 = rw la at fa in
    let fb' : value 0 b < 2 ^ 28 = rw lb at fb in
    let fc' : value 0 c < 2 ^ 28 = rw lc at fc in
    (
      omega (arith, e, low', all', fa', fb', fc'),
      omega (arith, e, low', all', fa', fb', fc'),
      omega (arith, e, low', all', fa', fb', fc'),
    )

-- For each key of 64 bits the slicer shows bits whose three parts, read as binary numerals, are the
-- partition and the two hashes that decodeKey gives for the key.
pub slices-to_decimal :
    (r : Registries) (n : ℕ)
    → n < 2 ^ 64
    → (s : Slices) × (slices (to_decimal n) ≡ some s) × AreOf (decode_key r (to_decimal n)) s
unfolding slices slices_of binary
slices-to_decimal r n h =
    let t = pad_start 64 (to_radix 2 n) in
    let (all_bits, len, val) = bits-pad_start n h in
    let a = take 8 t in
    let b = take 28 (drop 8 t) in
    let c = take 28 (drop 36 t) in
    let last : c ≡ drop 28 (drop 8 t) =
      take-length 28 (drop 36 t) (omega (arith, length-drop 36 t, len))
      ∙ sym (drop-drop 8 28 36 t refl) in
    let whole : a ++ (b ++ c) ≡ t =
      ap (λ x. a ++ (b ++ x)) last
      ∙ ap (λ x. a ++ x) (append-take-drop 28 (drop 8 t))
      ∙ append-take-drop 8 t in
    let la : length a ≡ 8 = omega (arith, length-take 8 t, len) in
    let lb : length b ≡ 28 = omega (arith, length-take 28 (drop 8 t), length-drop 8 t, len) in
    let lc : length c ≡ 28 = omega (arith, length-take 28 (drop 36 t), length-drop 36 t, len) in
    let ba = take-AllBits 8 t all_bits in
    let bb = take-AllBits 28 (drop 8 t) (drop-AllBits 8 t all_bits) in
    let bc = take-AllBits 28 (drop 36 t) (drop-AllBits 36 t all_bits) in
    let parts = parts_of a b c n la lb lc ba bb bc (ap (value 0) whole ∙ val) in
    let decoded = decode_key-to_decimal r n in
    (
      slices_of t,
      rw (parse_big_int-to_decimal n, slices),
      record {
        whole = whole;
        prefix = parse_part a _ (omega (arith, la)) ba (parts.0 ∙ sym decoded.0);
        user = parse_part b _ (omega (arith, lb)) bb (parts.1 ∙ sym decoded.1);
        item = parse_part c _ (omega (arith, lc)) bc (parts.2 ∙ sym decoded.2);
      },
    )
