-- ===== src/Keys/Decoder.antt =====
-- studio/src/utils/key-decoder.ts: taking a key apart.
pub mod RoundTrip
use Prim.Native.Nat.{bit_and}
use beast_db.Prelude.{ℕ, ◌+◌, Option, none, some, [], ◌∷◌, ◌++◌}
use beast_db.Js.Text.{Text, units, pad_start}
use beast_db.Js.BigInt.{ℤ, parse_big_int, shift_right, mask, to_hex}
use beast_db.Types.{PartitionMeta}
use beast_db.Keys.Registry.{Registries, get_partition_meta, hex_byte}

pub record KeyDecoded : Type 0 where
  pub raw : Text
  pub hex : Text
  pub prefix : ℕ
  pub prefix_hex : Text
  pub prefix_label : Text
  pub color : Text
  pub user_hash : ℕ
  pub item_hash : ℕ

decoded : Registries → Text → ℤ → KeyDecoded
decoded s key n =
    let prefix = mask (shift_right n 56) 0xff in
    let meta = get_partition_meta s prefix in
    record {
      raw = key;
      hex = units "0x" ++ pad_start 16 (to_hex n);
      prefix = prefix;
      prefix_hex = units "0x" ++ hex_byte prefix;
      prefix_label = meta.label;
      color = meta.color;
      user_hash = mask (shift_right n 28) 0x0fffffff;
      item_hash = mask n 0x0fffffff;
    }

-- The result of the `catch`.
generic_key : Text → KeyDecoded
generic_key key = record {
  raw = key;
  hex = units "0x0";
  prefix = 0;
  prefix_hex = units "0x00";
  prefix_label = units "Generic Key";
  color = units "slate";
  user_hash = 0;
  item_hash = 0;
}

unfoldable pub decode_key : Registries → Text → KeyDecoded
unfolding decoded generic_key
decode_key s key = elim (parse_big_int key) [ none ↦ generic_key key | some n ↦ decoded s key n ]
