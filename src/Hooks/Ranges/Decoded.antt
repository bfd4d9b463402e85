-- ===== src/Hooks/Ranges/Decoded.antt =====
-- The ranges of the hooks, against decodeKey of key-decoder.ts.
use beast_db.Prelude.{ℕ, ◌+◌, ◌*◌, ◌^◌, ◌≤◌, ◌<◌, ◌≡◌, ◌↔◌, arith}
use beast_db.Js.Bits.{bit_or-field}
use beast_db.Js.BigInt.{to_decimal}
use beast_db.Keys.Registry.{Registries}
use beast_db.Keys.Decoder.{decode_key}
use beast_db.Keys.Decoder.RoundTrip.{decode_key-to_decimal}
use beast_db.Hooks.Ranges.{start_key, end_key, user_base, user_end}

user_base-eq-sum :
    (prefix user_hash : ℕ)
    → user_hash < 2 ^ 28
    → user_base prefix user_hash ≡ (prefix * 2 ^ 28 + user_hash) * 2 ^ 28
unfolding user_base
user_base-eq-sum prefix user_hash h = omega (arith, bit_or-field 56 prefix (user_hash * 2 ^ 28))

user_end-eq-sum :
    (prefix user_hash : ℕ)
    → user_hash < 2 ^ 28
    → user_end prefix user_hash ≡ (prefix * 2 ^ 28 + user_hash) * 2 ^ 28 + 0x0fffffff
unfolding user_end
user_end-eq-sum prefix user_hash h =
    rw (user_base-eq-sum prefix user_hash h)
      (bit_or-field 28 (prefix * 2 ^ 28 + user_hash) 0x0fffffff (omega arith))

-- A key of 64 bits is between the first and the last key that are asked for a partition exactly
-- when the decoder puts it into that partition.
pub partition_range_iff :
    (s : Registries) (n prefix : ℕ)
    → n < 2 ^ 64
    → (start_key prefix ≤ n × (n ≤ end_key prefix))
      ↔ ((decode_key s (to_decimal n)).prefix ≡ prefix)
unfolding start_key end_key
partition_range_iff s n prefix fits =
    let same = (decode_key-to_decimal s n).0 in
    (λ (a, b). omega (arith, same), λ h. (omega (arith, same), omega (arith, same)))

-- A key of 64 bits is between the first and the last key that are asked for a user in a partition
-- exactly when the decoder gives it that partition and that user; the user is a number of 28 bits.
pub user_range_iff :
    (s : Registries) (n prefix user_hash : ℕ)
    → n < 2 ^ 64
    → user_hash < 2 ^ 28
    → (user_base prefix user_hash ≤ n × (n ≤ user_end prefix user_hash)) ↔ (
        ((decode_key s (to_decimal n)).prefix ≡ prefix)
        × ((decode_key s (to_decimal n)).user_hash ≡ user_hash))
user_range_iff s n prefix user_hash fits small =
    let (p, u, i) = decode_key-to_decimal s n in
    rw (p, u, user_base-eq-sum prefix user_hash small, user_end-eq-sum prefix user_hash small)
      (λ (a, b). (omega arith, omega arith), λ (a, b). (omega arith, omega arith))
