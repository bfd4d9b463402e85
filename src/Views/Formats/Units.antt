-- ===== src/Views/Formats/Units.antt =====
-- The units in which sizes and ages are shown.
use beast_db.Prelude.{ℕ, zero, suc, ◌^◌, ◌<◌, ◌≤◌, ◌≡◌, refl, ◌++◌, arith}
use beast_db.Js.Text.{units}
use beast_db.Views.Formats.{Formats, format_bytes, size_name}

size_name-undefined : (i : ℕ) → 4 ≤ i → size_name i ≡ units "undefined"
unfolding size_name
size_name-undefined zero h = absurd (omega arith)
size_name-undefined (suc zero) h = absurd (omega arith)
size_name-undefined (suc (suc zero)) h = absurd (omega arith)
size_name-undefined (suc (suc (suc zero))) h = absurd (omega arith)
size_name-undefined (suc (suc (suc (suc i)))) h = refl

-- A size of 1024^4 bytes or more, a terabyte, is shown with the unit `undefined`, since the list of
-- the units ends with GB.
pub format_bytes-terabytes :
    (f : Formats) (bytes : ℕ)
    → 0 < bytes
    → 4 ≤ f.log_1024 bytes
    → format_bytes f bytes
      ≡ f.one_decimal bytes (1024 ^ f.log_1024 bytes) ++ units " " ++ units "undefined"
unfolding format_bytes
format_bytes-terabytes f bytes pos big = ground (arith, size_name-undefined (f.log_1024 bytes) big)
