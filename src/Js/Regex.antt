-- ===== src/Js/Regex.antt =====
-- Regular expressions, for the tests that the Studio makes with `match` and `test`. A test asks
-- whether the whole text is in the language: `^` and `$` stand at its ends, and a pattern with no
-- `$` ends in `anything`. The test takes the derivative by each code unit.
pub mod Laws
use beast_db.Prelude.{
  ℕ, zero, suc, Bool, true, false, not, ◌&&◌, ◌||◌, List, [], ◌∷◌, ltb, leb, ◌==◌, any,
  if◌then◌else◌,
}
use beast_db.Js.Text.{Text, is_space}
use beast_db.Js.Case.{is_upper, is_lower, lower_unit}

pub data Regex : Type 0 where
  never empty : Regex
  unit : (ℕ → Bool) → Regex
  seq alt : Regex → Regex → Regex
  star : Regex → Regex

-- Does the empty text match?
nullable : Regex → Bool
nullable never = false
nullable empty = true
nullable (unit p) = false
nullable (seq r s) = nullable r && nullable s
nullable (alt r s) = nullable r || nullable s
nullable (star r) = true

-- The two ways to put expressions together, without what matches nothing.
and_then : Regex → Regex → Regex
and_then never s = never
and_then empty s = s
and_then r s = seq r s

or_also : Regex → Regex → Regex
or_also never s = s
or_also r never = r
or_also r s = alt r s

-- What is to match after the unit `u`.
deriv : ℕ → Regex → Regex
deriv u never = never
deriv u empty = never
deriv u (unit p) = if p u then empty else never
deriv u (seq r s) =
    let first = and_then (deriv u r) s in if nullable r then or_also first (deriv u s) else first
deriv u (alt r s) = or_also (deriv u r) (deriv u s)
deriv u (star r) = and_then (deriv u r) (star r)

unfoldable pub test : Regex → Text → Bool
unfolding nullable deriv and_then or_also
test r [] = nullable r
test r (u ∷ s) = test (deriv u r) s

abbrev pub plus : Regex → Regex
plus r = seq r (star r)

abbrev pub opt : Regex → Regex
opt r = alt empty r

-- A literal.
abbrev pub lit : Text → Regex
lit [] = empty
lit (u ∷ s) = seq (unit (λ v. v == u)) (lit s)

-- A literal in lower case, under the flag `i`.
abbrev pub lit_i : Text → Regex
lit_i [] = empty
lit_i (u ∷ s) = seq (unit (λ v. lower_unit v == u)) (lit_i s)

abbrev pub is_digit : ℕ → Bool
is_digit u = leb b'0' u && leb u b'9'

-- r{n}
abbrev pub times : ℕ → Regex → Regex
times zero r = empty
times (suc n) r = seq r (times n r)

-- r{0,n}
abbrev pub at_most : ℕ → Regex → Regex
at_most zero r = empty
at_most (suc n) r = opt (seq r (at_most n r))

-- `.` is no line terminator.
abbrev pub is_dot : ℕ → Bool
is_dot u = not (any (λ c. c == u) (10 ∷ 13 ∷ 0x2028 ∷ 0x2029 ∷ []))

abbrev pub anything : Regex
anything = star (unit (λ u. true))
