-- ===== src/Keys/Decoder/RoundTrip.antt =====
-- decodeKey of key-decoder.ts, against buildStructuredKey of format.ts.
use beast_db.Prelude.{
  ℕ, ◌-◌, ◌/◌, ◌%◌, ◌^◌, ◌<◌, ◌≡◌, refl, none, some, arith, Option-cases, inl, inr,
}
use beast_db.Js.Text.{Text}
use beast_db.Js.BigInt.{ℤ, pos, negsuc, parse_big_int, shift_right, mask}
use native.Mathlib.Nat.{one-le-pow}
use beast_db.Js.Bits.{bit_and-mask}
use beast_db.Js.BigInt.{to_decimal}
use beast_db.Js.BigInt.Digits.{parse_big_int-to_decimal}
use beast_db.Keys.Format.{fnv28, build_structured_key, structured_key}
use beast_db.Keys.Format.Bounds.{fnv28-lt, structured_key-eq-sum}
use beast_db.Keys.Registry.{Registries}
use beast_db.Keys.Decoder.{KeyDecoded, decoded, generic_key, decode_key}

-- A prefix of 8 bits and two hashes of 28.
pub record InRange (d : KeyDecoded) : Type 0 where
  pub prefix_fits : d.prefix < 2 ^ 8
  pub user_fits : d.user_hash < 2 ^ 28
  pub item_fits : d.item_hash < 2 ^ 28

mask_low : (k : ℕ) (n : ℤ) → mask n (2 ^ k - 1) < 2 ^ k
mask_low k (pos n) = omega (arith, bit_and-mask k n, one-le-pow k 2)
mask_low k (negsuc n) = omega (arith, one-le-pow k 2 (omega arith))

decode_key-some :
    (s : Registries) (key : Text) (n : ℤ)
    → parse_big_int key ≡ some n
    → decode_key s key ≡ decoded s key n
unfolding decode_key
decode_key-some s key n e = rw (e, decode_key)

decode_key-none :
    (s : Registries) (key : Text) → parse_big_int key ≡ none → decode_key s key ≡ generic_key key
unfolding decode_key
decode_key-none s key e = rw (e, decode_key)

decoded-InRange : (s : Registries) (key : Text) (n : ℤ) → InRange (decoded s key n)
unfolding decoded
decoded-InRange s key n = record {
  prefix_fits = mask_low 8 (shift_right n 56);
  user_fits = mask_low 28 (shift_right n 28);
  item_fits = mask_low 28 n;
}

generic_key-InRange : (key : Text) → InRange (generic_key key)
unfolding generic_key
generic_key-InRange key = omega arith

-- Whatever the text of a key and the registries, the decoded prefix has 8 bits and the two hashes
-- have 28; for a text that is no integer too.
pub decode_key-InRange : (s : Registries) (key : Text) → InRange (decode_key s key)
decode_key-InRange s key = elim (Option-cases (parse_big_int key)) [
  | inl e ↦ rw (decode_key-none s key e) (generic_key-InRange key)
  | inr (n, e) ↦ rw (decode_key-some s key n e) (decoded-InRange s key n)
]

-- Every key keeps its text.
pub raw-decode_key : (s : Registries) (key : Text) → (decode_key s key).raw ≡ key
unfolding decoded generic_key
raw-decode_key s key = elim (Option-cases (parse_big_int key)) [
  | inl e ↦ rw (decode_key-none s key e) refl
  | inr (n, e) ↦ rw (decode_key-some s key n e) refl
]

-- The three parts of the key that is a number's numeral.
pub decode_key-to_decimal :
    (s : Registries) (n : ℕ)
    → ((decode_key s (to_decimal n)).prefix ≡ n / 2 ^ 56 % 2 ^ 8)
      × ((decode_key s (to_decimal n)).user_hash ≡ n / 2 ^ 28 % 2 ^ 28)
      × ((decode_key s (to_decimal n)).item_hash ≡ n % 2 ^ 28)
unfolding decoded
decode_key-to_decimal s n =
    rw (decode_key-some s (to_decimal n) (pos n) (parse_big_int-to_decimal n))
      (bit_and-mask 8 (n / 2 ^ 56), bit_and-mask 28 (n / 2 ^ 28), bit_and-mask 28 n)

-- What the decoder gives for the key that is built from three parts.
pub record IsKeyOf (prefix : ℕ) (domain item key : Text) (d : KeyDecoded) : Type 0 where
  pub same_raw : d.raw ≡ key
  pub same_prefix : d.prefix ≡ prefix
  pub same_user : d.user_hash ≡ fnv28 domain
  pub same_item : d.item_hash ≡ fnv28 item

-- A key built from a prefix below 256, a domain and an item decodes to that prefix and to the two
-- hashes, and keeps its text, whatever the registries.
pub decode_key-build_structured_key :
    (s : Registries) (prefix : ℕ) (domain item : Text)
    → prefix < 256
    → IsKeyOf prefix domain item
        (build_structured_key prefix domain item)
        (decode_key s (build_structured_key prefix domain item))
unfolding build_structured_key decoded
decode_key-build_structured_key s prefix domain item h =
    let n : ℕ = structured_key prefix domain item in
    let sum = structured_key-eq-sum prefix domain item in
    let d = fnv28-lt domain in
    let i = fnv28-lt item in
    rw (decode_key-some s (to_decimal n) (pos n) (parse_big_int-to_decimal n)) record {
      same_raw = refl;
      same_prefix = omega (arith, bit_and-mask 8 (n / 2 ^ 56));
      same_user = omega (arith, bit_and-mask 28 (n / 2 ^ 28));
      same_item = omega (arith, bit_and-mask 28 n);
    }
