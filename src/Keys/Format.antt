-- ===== src/Keys/Format.antt =====
-- studio/src/utils/format.ts: the FNV-1a hashes and the structured key.
pub mod Bounds
use Prim.Native.Nat.{bit_and, bit_or, bit_xor}
use beast_db.Prelude.{ℕ, ◌-◌, ◌*◌, ◌^◌, ◌<◌, [], ◌∷◌, ◌++◌, ltb, if◌then◌else◌, length, take}
use beast_db.Js.Text.{Text, units, take_last}
use beast_db.Js.BigInt.{to_decimal}

abbrev offset_basis : ℕ
offset_basis = 0xcbf29ce484222325

abbrev prime : ℕ
prime = 0x100000001b3

abbrev mask : ℕ
mask = 0xffffffffffffffff

-- The loop of both hashes, over the code units.
fnv_loop : ℕ → Text → ℕ
fnv_loop hash [] = hash
fnv_loop hash (u ∷ s) = fnv_loop (bit_and (bit_xor hash u * prime) mask) s

unfoldable pub fnv1a64 : Text → Text
unfolding fnv_loop to_decimal
fnv1a64 str = to_decimal (bit_and (fnv_loop offset_basis str) 0x7fffffffffffffff)

unfoldable pub fnv28 : Text → ℕ
unfolding fnv_loop
fnv28 str = bit_and (fnv_loop offset_basis str) 0x0fffffff

-- The BigInt before it is printed.
unfoldable pub structured_key : ℕ → Text → Text → ℕ
structured_key prefix domain item =
    bit_or (bit_or (prefix * 2 ^ 56) (fnv28 domain * 2 ^ 28)) (fnv28 item)

unfoldable pub build_structured_key : ℕ → Text → Text → Text
unfolding structured_key to_decimal
build_structured_key prefix domain item = to_decimal (structured_key prefix domain item)

-- formatKey; formatKeyCompact of key-decoder.ts has the same body.
unfoldable pub format_key : Text → Text
unfolding take_last
format_key str = if ltb 14 (length str) then take 5 str ++ units "..." ++ take_last 4 str else str
