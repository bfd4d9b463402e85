-- ===== src/Js/Text/Trim.antt =====
-- Texts with no white space at their ends.
use mathlib.Core.List.{reverse, reverse-cons, reverse-reverse, reverse-append}
use beast_db.Prelude.{
  ℕ, ◌≡◌, refl, ap, ◌∙◌, sym, Bool, true, false, not, List, [], ◌∷◌, ◌++◌, All, All-append,
  Bool-cases, inl, inr, arith,
}
use beast_db.Js.Text.{Text, is_space, trim_start, trim}

abbrev pub NoSpace : ℕ → Type 0
NoSpace u = is_space u ≡ false

pub All-reverse {ℓ κ} : {A : Type ℓ} (P : A → Type κ) (s : List A) → All P s → All P (reverse s)
All-reverse P [] h = tt
All-reverse P (u ∷ s) (p, h) =
    rw reverse-cons (All-append P (reverse s) (u ∷ []) (All-reverse P s h) (p, tt))

trim_start_id : (s : Text) → All NoSpace s → trim_start s ≡ s
unfolding trim_start
trim_start_id [] h = refl
trim_start_id (u ∷ s) (p, h) = rw p

pub trim_id : (s : Text) → All NoSpace s → trim s ≡ s
unfolding trim
trim_id s h =
    rw (trim_start_id s h, trim_start_id (reverse s) (All-reverse NoSpace s h), reverse-reverse s)

begins_well : Text → Bool
begins_well [] = true
begins_well (u ∷ s) = not (is_space u)

begins_well-trim_start : (s : Text) → begins_well (trim_start s) ≡ true
unfolding begins_well trim_start
begins_well-trim_start [] = refl
begins_well-trim_start (u ∷ s) = elim (Bool-cases (is_space u)) [
  | inl e ↦ rw e (begins_well-trim_start s)
  | inr e ↦ rw (e, begins_well, e) refl
]

trim_start-begins_well : (s : Text) → begins_well s ≡ true → trim_start s ≡ s
unfolding begins_well trim_start
trim_start-begins_well [] h = refl
trim_start-begins_well (u ∷ s) h = ground arith

begins_well-append : (a b : Text) → begins_well (a ++ b) ≡ true → begins_well a ≡ true
unfolding begins_well
begins_well-append [] b h = refl
begins_well-append (u ∷ a) b h = h

-- What trim_start takes off.
taken : (s : Text) → (p : Text) × (s ≡ p ++ trim_start s)
unfolding trim_start
taken [] = ([], refl)
taken (u ∷ s) = elim (Bool-cases (is_space u)) [
  | inl e ↦ let (p, h) = taken s in (u ∷ p, rw e (ap (λ t. u ∷ t) h))
  | inr e ↦ ([], rw e refl)
]

-- What is left of a text that begins well does so too.
begins_well-reverse :
    (t : Text) → begins_well t ≡ true → begins_well (reverse (trim_start (reverse t))) ≡ true
begins_well-reverse t h =
    let (p, e) = taken (reverse t) in
    let r = trim_start (reverse t) in
    let whole : t ≡ reverse r ++ reverse p =
      sym (reverse-reverse t) ∙ ap reverse e ∙ reverse-append p r in
    begins_well-append (reverse r) (reverse p) (rw (← whole) h)

pub trim-trim : (s : Text) → trim (trim s) ≡ trim s
unfolding trim
trim-trim s =
    let t = trim_start s in
    let r = trim_start (reverse t) in
    let first : trim_start (reverse r) ≡ reverse r =
      trim_start-begins_well (reverse r) (begins_well-reverse t (begins_well-trim_start s)) in
    let second : trim_start r ≡ r = trim_start-begins_well r (begins_well-trim_start (reverse t)) in
    rw (first, reverse-reverse r, second) refl
