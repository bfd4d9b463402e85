-- ===== src/Views/Analyzer/Hashes.antt =====
-- The keys that the button `Hash` puts into the dialog.
use beast_db.Prelude.{ℕ, ◌+◌, ◌*◌, ◌^◌, ◌<◌, ◌≡◌, refl, Option, some, true, [], ◌∷◌, arith, lt→ltb}
use beast_db.Js.Text.{Text, trim}
use beast_db.Js.BigInt.{to_decimal}
use beast_db.Js.BigInt.Digits.{parse_big_int-to_decimal}
use beast_db.Js.Regex.{test}
use beast_db.Keys.Registry.{Registries}
use beast_db.Keys.Format.Bounds.{fnv1a64-prints}
use beast_db.Keys.Decoder.{KeyDecoded, decode_key}
use beast_db.Keys.Decoder.RoundTrip.{decode_key-to_decimal, raw-decode_key}
use beast_db.NewRecord.{key_re}
use beast_db.NewRecord.Keys.{test-to_decimal}
use beast_db.Views.Analyzer.{Analyzer, fits, is_valid, decoded_of, hash_seed}

-- Every numeral of 64 bits is taken for a valid key.
pub is_valid-to_decimal : (n : ℕ) → n < 2 ^ 64 → is_valid (to_decimal n) ≡ true
unfolding is_valid fits
is_valid-to_decimal n h =
    rw (test-to_decimal n, parse_big_int-to_decimal n, lt→ltb n (2 ^ 64) h) refl

decoded_of-is_valid :
    (s : Registries) (k : Text) → is_valid k ≡ true → decoded_of s k ≡ some (decode_key s k)
unfolding decoded_of
decoded_of-is_valid s [] h = unfold is_valid test key_re in cc
decoded_of-is_valid s (u ∷ k) h = rw h refl

-- The dialog shows the number n taken apart: its own text, and parts that make it up again.
pub record IsApart (n : ℕ) (key : Text) (shown : Option KeyDecoded) : Type 0 where
  pub parts : KeyDecoded
  pub is_shown : shown ≡ some parts
  pub same_raw : parts.raw ≡ key
  pub whole : parts.prefix * 2 ^ 56 + parts.user_hash * 2 ^ 28 + parts.item_hash ≡ n

IsApart-to_decimal :
    (s : Registries) (n : ℕ) → n < 2 ^ 64 → IsApart n (to_decimal n) (decoded_of s (to_decimal n))
IsApart-to_decimal s n h =
    let (prefix, user, item) = decode_key-to_decimal s n in
    record {
      parts = decode_key s (to_decimal n);
      is_shown = decoded_of-is_valid s (to_decimal n) (is_valid-to_decimal n h);
      same_raw = raw-decode_key s (to_decimal n);
      whole = rw (prefix, user, item) (omega arith);
    }

-- Whatever the seed, the button `Hash` puts the numeral of a number below 2 ^ 63 into the dialog; the
-- dialog takes it for a valid key, and shows its text and three parts which, each at its place in
-- the key, add up to that number.
pub is_valid-hash_seed :
    (s : Registries) (a : Analyzer)
    → (n : ℕ) × (n < 2 ^ 63)
      × ((hash_seed a).key ≡ to_decimal n)
      × (is_valid (hash_seed a).key ≡ true)
      × IsApart n (hash_seed a).key (decoded_of s (hash_seed a).key)
unfolding hash_seed
is_valid-hash_seed s a =
    let (n, prints, small) = fnv1a64-prints (trim a.seed) in
    let fits : n < 2 ^ 64 = omega arith in
    (
      n,
      small,
      prints,
      rw prints (is_valid-to_decimal n fits),
      rw prints (IsApart-to_decimal s n fits),
    )
