-- ===== src/Hooks/Reads/Searches.antt =====
-- useStudioData.ts: the parameters of search.
use beast_db.Prelude.{
  ℕ, ◌≡◌, refl, Option, none, some, List, [], ◌∷◌, ◌++◌, ◌==◌, Bool-cases, inl, inr, if◌then◌else◌,
}
use beast_db.Js.Text.{Text, units, same}
use beast_db.Js.BigInt.{to_decimal}
use beast_db.Hooks.Reads.{number_param, text_param, search_params}

-- params.get(name)
abbrev pub param : List (Text × Text) → Text → Option Text
param [] name = none
param ((k, v) ∷ ps) name = if same k name then some v else param ps name

max_scan-param : (m : Option ℕ) → param (number_param (units "maxScan") m) (units "prefix") ≡ none
unfolding number_param
max_scan-param none = refl
max_scan-param (some n) = elim (Bool-cases (n == 0)) [
  | inl e ↦ rw (e, number_param) refl
  | inr e ↦ rw (e, number_param) refl
]

others-param :
    (s : Option Text) (m : Option ℕ)
    → param (text_param (units "start") s ++ number_param (units "maxScan") m) (units "prefix")
      ≡ none
unfolding text_param
others-param none m = max_scan-param m
others-param (some []) m = max_scan-param m
others-param (some (u ∷ s)) m = max_scan-param m

-- The prefix that is asked for: none for partition 0.
abbrev pub sent_prefix : Option ℕ → Option Text
sent_prefix none = none
sent_prefix (some n) = if n == 0 then none else some (to_decimal n)

-- The prefix of a search reaches the server if there is one and it is not 0; a search in partition 0
-- has none, as a search everywhere.
pub param-search_params :
    (q : Text) (start : Option Text) (max_scan p : Option ℕ)
    → param
        (search_params q (record { prefix = p; start = start; max_scan = max_scan }))
        (units "prefix")
      ≡ sent_prefix p
unfolding search_params number_param
param-search_params q start max_scan none = others-param start max_scan
param-search_params q start max_scan (some n) = elim (Bool-cases (n == 0)) [
  | inl e ↦ rw (e, number_param) (others-param start max_scan)
  | inr e ↦ rw (e, number_param) refl
]
