-- ===== src/Js/Case.antt =====
-- toLowerCase and toUpperCase, one code unit at a time. The ASCII letters are mapped here; what
-- Unicode says of the other units is a parameter. (Two things are not modelled: a pair of
-- surrogates is mapped as two units, and no unit looks at its neighbours.)
use beast_db.Prelude.{ℕ, ◌+◌, ◌-◌, Bool, ◌&&◌, [], ◌∷◌, ◌++◌, ltb, leb, if◌then◌else◌}
use beast_db.Js.Text.{Text}

-- The images of the code units from 128 on.
pub record CaseMap : Type 0 where
  pub lower_other : ℕ → Text
  pub upper_other : ℕ → Text

abbrev pub is_upper : ℕ → Bool
is_upper u = leb b'A' u && leb u b'Z'

abbrev pub is_lower : ℕ → Bool
is_lower u = leb b'a' u && leb u b'z'

unfoldable pub lower_unit : ℕ → ℕ
lower_unit u = if is_upper u then u + 32 else u

unfoldable pub upper_unit : ℕ → ℕ
upper_unit u = if is_lower u then u - 32 else u

module _ ⦃c : CaseMap⦄ where
  -- s.toLowerCase()
  unfoldable pub to_lower : Text → Text
  unfolding lower_unit
  to_lower [] = []
  to_lower (u ∷ s) = (if ltb u 128 then lower_unit u ∷ [] else c.lower_other u) ++ to_lower s

  -- s.toUpperCase()
  unfoldable pub to_upper : Text → Text
  unfolding upper_unit
  to_upper [] = []
  to_upper (u ∷ s) = (if ltb u 128 then upper_unit u ∷ [] else c.upper_other u) ++ to_upper s
