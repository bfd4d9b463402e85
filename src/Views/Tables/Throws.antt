-- ===== src/Views/Tables/Throws.antt =====
-- When the table or the grid cannot be rendered.
use beast_db.Prelude.{◌≡◌, Bool, false, ◌||◌, arith}

or_false : (x y b : Bool) → x ≡ b → y ≡ false → (x || y) ≡ b
or_false x y b h k = ground arith
