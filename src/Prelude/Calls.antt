-- ===== src/Prelude/Calls.antt =====
-- The calls that wait for an answer, as a list: any of them may be the next to be answered.
use Prim.Native.Nat.{ℕ, zero, suc, ◌+◌}
use mathlib.Core.Path.{◌≡◌, refl, ap}
use mathlib.Core.Bool.{Bool}
use mathlib.Core.Option
use mathlib.Core.Option.{Option, none, some, some-injective}
use mathlib.Core.List.{List, [], ◌∷◌}
use native.Mathlib.Omega.{arith}
use beast_db.Prelude.Tests.{if◌then◌else◌}
use beast_db.Prelude.Lists.{All, count}

module _ {ℓ} {A : Type ℓ} where
  -- The call at a position of the list, and the others.
  unfoldable pub take_out : List A → ℕ → Option (A × List A)
  take_out [] i = none
  take_out (p ∷ ps) zero = some (p, ps)
  take_out (p ∷ ps) (suc i) = Option.map (λ r. (r.0, p ∷ r.1)) (take_out ps i)

  pub take_out-All {κ} :
      (P : A → Type κ) (ps : List A) (i : ℕ) (c : A) (qs : List A)
      → take_out ps i ≡ some (c, qs)
      → All P ps
      → P c × All P qs
  unfolding take_out
  take_out-All P [] i c qs e h = cc
  take_out-All P (p ∷ ps) zero c qs e (k, h) =
      let same = some-injective _ _ e in
      let c_same : p ≡ c = ap (λ r. r.0) same in
      let q_same : ps ≡ qs = ap (λ r. r.1) same in (rw (← c_same) k, rw (← q_same) h)
  take_out-All P (p ∷ ps) (suc i) c qs e (k, h) =
      let ((c', rest), found, same) = (Option.map-eq-some_iff _ _).0 e in
      let c_same : c' ≡ c = ap (λ r. r.0) same in
      let (kc, kr) = take_out-All P ps i c' rest found h in
      (rw (← c_same) kc, rw (← ap (λ r. r.1) same) (k, kr))

  -- What is taken out is missing from the count.
  pub count-take_out :
      (f : A → Bool) (ps : List A) (i : ℕ) (c : A) (qs : List A)
      → take_out ps i ≡ some (c, qs)
      → count f ps ≡ count f qs + (if f c then 1 else 0)
  unfolding take_out
  count-take_out f [] i c qs e = cc
  count-take_out f (p ∷ ps) zero c qs e =
      let same = some-injective _ _ e in
      let c_same : p ≡ c = ap (λ r. r.0) same in
      let q_same : ps ≡ qs = ap (λ r. r.1) same in rw (c_same, q_same) refl
  count-take_out f (p ∷ ps) (suc i) c qs e =
      let ((c', rest), found, same) = (Option.map-eq-some_iff _ _).0 e in
      let c_same : c' ≡ c = ap (λ r. r.0) same in
      let q_same : p ∷ rest ≡ qs = ap (λ r. r.1) same in
      let more = count-take_out f ps i c' rest found in
      rw (← c_same, ← q_same) (omega (arith, more))
