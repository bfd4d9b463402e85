-- ===== src/Tests/KeyRuns.antt =====
-- Runs of key-decoder.ts.
use beast_db.Views.Engine.{Slices, slices}
use beast_db.Views.Engine.Bits.{AreOf, slices-to_decimal}
use beast_db.Js.BigInt.{to_decimal}
use beast_db.Prelude.{◌≡◌, some, arith}
use beast_db.Js.Text.{units}
use beast_db.Keys.Format.{build_structured_key}
use beast_db.Keys.Decoder.{decode_key}
use beast_db.Keys.Decoder.RoundTrip.{IsKeyOf, decode_key-build_structured_key}
use beast_db.Tests.Samples.{no_names}

decode_key-build_structured_key_example :
    IsKeyOf 3
      (units "user")
      (units "42")
      (build_structured_key 3 (units "user") (units "42"))
      (decode_key no_names (build_structured_key 3 (units "user") (units "42")))
decode_key-build_structured_key_example =
    decode_key-build_structured_key no_names 3 (units "user") (units "42") (omega arith)

-- The key of partition 3 with the hashes 5 and 10.
slices-to_decimal_example :
    (s : Slices) × (slices (to_decimal 216172783455961098) ≡ some s)
    × AreOf (decode_key no_names (to_decimal 216172783455961098)) s
slices-to_decimal_example = slices-to_decimal no_names 216172783455961098 (omega arith)
