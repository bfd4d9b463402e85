-- ===== src/Js/Regex/Laws.antt =====
-- The test of an expression, against its language.
use beast_db.Prelude.{
  ℕ, ◌≡◌, refl, ◌↔◌, ◌⊎◌, inl, inr, Bool, true, [], ◌∷◌, ◌++◌, arith, ap, sym, ◌∙◌, Bool-cases,
}
use beast_db.Js.Text.{Text}
use beast_db.Js.Regex.{
  Regex, never, empty, unit, seq, alt, star, nullable, and_then, or_also, deriv, test,
}

-- The texts of an expression. A star is a list of texts that are not empty.
pub data Matches : Regex → Text → Type 0 where
  nothing : Matches empty []
  one : {p : ℕ → Bool} (u : ℕ) → p u ≡ true → Matches (unit p) (u ∷ [])
  both : {r s : Regex} (t v w : Text) → Matches r t → Matches s v → t ++ v ≡ w → Matches (seq r s) w
  left : {r s : Regex} {t : Text} → Matches r t → Matches (alt r s) t
  right : {r s : Regex} {t : Text} → Matches s t → Matches (alt r s) t
  stop : {r : Regex} → Matches (star r) []
  more :
      {r : Regex} (u : ℕ) (t v w : Text)
      → Matches r (u ∷ t)
      → Matches (star r) v
      → u ∷ t ++ v ≡ w
      → Matches (star r) w

nullable-Matches : (r : Regex) → nullable r ≡ true → Matches r []
unfolding nullable
nullable-Matches never h = cc
nullable-Matches empty h = nothing
nullable-Matches (unit p) h = cc
nullable-Matches (seq r s) h =
    both [] [] [] (nullable-Matches r (ground arith)) (nullable-Matches s (ground arith)) refl
nullable-Matches (alt r s) h = elim (Bool-cases (nullable r)) [
  | inl e ↦ left (nullable-Matches r e)
  | inr e ↦ right (nullable-Matches s (ground arith))
]
nullable-Matches (star r) h = stop

append-eq-nil : (t v : Text) → t ++ v ≡ [] → (t ≡ []) × (v ≡ [])
append-eq-nil [] v e = (refl, e)
append-eq-nil (u ∷ t) v e = cc

Matches-nullable : {r : Regex} {w : Text} → Matches r w → w ≡ [] → nullable r ≡ true
unfolding nullable
Matches-nullable nothing e = refl
Matches-nullable (one u p) e = cc
Matches-nullable (both t v w m n h) e =
    let (a, b) = append-eq-nil t v (h ∙ e) in rw (Matches-nullable m a, Matches-nullable n b)
Matches-nullable (left m) e = rw (Matches-nullable m e)
Matches-nullable (right {r} m) e = ground (arith, Matches-nullable m e)
Matches-nullable stop e = refl
Matches-nullable (more u t v w m n h) e = refl

-- Inversions: what a text of each expression is.
Matches-never : {w : Text} → Matches never w → ⊥
Matches-never m = elim m [ ]

Matches-empty : {w : Text} → Matches empty w → w ≡ []
Matches-empty nothing = refl

Matches-unit :
    {p : ℕ → Bool} {w : Text} → Matches (unit p) w → (u : ℕ) × (p u ≡ true) × (w ≡ u ∷ [])
Matches-unit (one u p) = (u, p, refl)

Matches-seq :
    {r s : Regex} {w : Text}
    → Matches (seq r s) w
    → (t : Text) × (v : Text) × Matches r t × Matches s v × (t ++ v ≡ w)
Matches-seq (both t v w m n h) = (t, v, m, n, h)

Matches-alt : {r s : Regex} {w : Text} → Matches (alt r s) w → Matches r w ⊎ Matches s w
Matches-alt (left m) = inl m
Matches-alt (right m) = inr m

Matches-star :
    {r : Regex} {w : Text} (u : ℕ) (w' : Text)
    → Matches (star r) w
    → w ≡ u ∷ w'
    → (t : Text) × (v : Text) × Matches r (u ∷ t) × Matches (star r) v × (t ++ v ≡ w')
Matches-star u w' stop e = cc
Matches-star {r} u w' (more x t v w m n h) e = let same : x ≡ u = cc in (t, v, rw (← same) m, n, cc)

and_then-Matches : (r s : Regex) (w : Text) → Matches (and_then r s) w ↔ Matches (seq r s) w
unfolding and_then
and_then-Matches never s w =
    (λ m. absurd (Matches-never m), λ m. absurd (Matches-never (Matches-seq m).2))
and_then-Matches empty s w = (
  λ m. both [] w w nothing m refl,
  λ m.
      let (t, v, k, n, h) = Matches-seq m in
      let e : v ≡ w = ap (λ t. t ++ v) (sym (Matches-empty k)) ∙ h in rw e at n,
)
and_then-Matches _ s w = (λ m. m, λ m. m)

alt-never : (r : Regex) (w : Text) → Matches r w ↔ Matches (alt r never) w
alt-never r w =
    (λ m. left m, λ m. elim (Matches-alt m) [ inl n ↦ n | inr n ↦ absurd (Matches-never n) ])

or_also-Matches : (r s : Regex) (w : Text) → Matches (or_also r s) w ↔ Matches (alt r s) w
unfolding or_also
or_also-Matches never s w =
    (λ m. right m, λ m. elim (Matches-alt m) [ inl n ↦ absurd (Matches-never n) | inr n ↦ n ])
or_also-Matches empty never w = alt-never _ w
or_also-Matches (unit p) never w = alt-never _ w
or_also-Matches (seq a b) never w = alt-never _ w
or_also-Matches (alt a b) never w = alt-never _ w
or_also-Matches (star a) never w = alt-never _ w
or_also-Matches _ _ w = (λ m. m, λ m. m)

deriv-first :
    (r s : Regex) (u : ℕ) (w : Text)
    → ((t : Text) → Matches (deriv u r) t → Matches r (u ∷ t))
    → Matches (seq (deriv u r) s) w
    → Matches (seq r s) (u ∷ w)
deriv-first r s u w sound m =
    let (t, v, k, n, h) = Matches-seq m in both (u ∷ t) v (u ∷ w) (sound t k) n (ap (λ t. u ∷ t) h)

deriv_sound : (r : Regex) (u : ℕ) (w : Text) → Matches (deriv u r) w → Matches r (u ∷ w)
unfolding deriv
deriv_sound never u w m = absurd (Matches-never m)
deriv_sound empty u w m = absurd (Matches-never m)
deriv_sound (unit p) u w m = elim (Bool-cases (p u)) [
  | inl e ↦ let n : Matches empty w = rw e at m in rw (Matches-empty n) (one u e)
  | inr e ↦ let n : Matches never w = rw e at m in absurd (Matches-never n)
]
deriv_sound (seq r s) u w m =
    let first = λ (k : Matches (and_then (deriv u r) s) w).
      deriv-first r s u w (deriv_sound r u) ((and_then-Matches (deriv u r) s w).0 k) in
    elim (Bool-cases (nullable r)) [
      | inl e ↦
          let k : Matches (or_also (and_then (deriv u r) s) (deriv u s)) w = rw e at m in
          elim (Matches-alt ((or_also-Matches (and_then (deriv u r) s) (deriv u s) w).0 k)) [
            | inl n ↦ first n
            | inr n ↦ both [] (u ∷ w) (u ∷ w) (nullable-Matches r e) (deriv_sound s u w n) refl
          ]
      | inr e ↦ let k : Matches (and_then (deriv u r) s) w = rw e at m in first k
    ]
deriv_sound (alt r s) u w m = elim (Matches-alt ((or_also-Matches (deriv u r) (deriv u s) w).0 m)) [
  | inl n ↦ left (deriv_sound r u w n)
  | inr n ↦ right (deriv_sound s u w n)
]
deriv_sound (star r) u w m =
    let (t, v, k, n, h) = Matches-seq ((and_then-Matches (deriv u r) (star r) w).0 m) in
    more u t v (u ∷ w) (deriv_sound r u t k) n (ap (λ t. u ∷ t) h)

-- The parts of a text that begins with `u`: the first is empty, or begins with `u`.
starts_with :
    (t v : Text) (u : ℕ) (w : Text)
    → t ++ v ≡ u ∷ w
    → ((t ≡ []) × (v ≡ u ∷ w)) ⊎ ((t' : Text) × (t ≡ u ∷ t') × (t' ++ v ≡ w))
starts_with [] v u w e = inl (refl, e)
starts_with (x ∷ t) v u w e = inr (t, cc, cc)

deriv_complete : (r : Regex) (u : ℕ) (w : Text) → Matches r (u ∷ w) → Matches (deriv u r) w
unfolding deriv
deriv_complete never u w m = absurd (Matches-never m)
deriv_complete empty u w m = cc (Matches-empty m)
deriv_complete (unit p) u w m =
    let (x, ok, e) = Matches-unit m in
    let holds : p u ≡ true = cc in let e' : w ≡ [] = cc in rw (holds, e') nothing
deriv_complete (seq r s) u w m =
    let (t, v, k, n, h) = Matches-seq m in
    let join = or_also-Matches (and_then (deriv u r) s) (deriv u s) w in
    elim (starts_with t v u w h) [
      | inl (et, ev) ↦
          rw (Matches-nullable k et) (join.1 (right (deriv_complete s u w (rw ev at n))))
      | inr (t', et, h') ↦
          let first =
            (and_then-Matches (deriv u r) s w).1
              (both t' v w (deriv_complete r u t' (rw et at k)) n h') in
          elim (Bool-cases (nullable r)) [ inl e ↦ rw e (join.1 (left first)) | inr e ↦ rw e first ]
    ]
deriv_complete (alt r s) u w m =
    (or_also-Matches (deriv u r) (deriv u s) w).1 (elim (Matches-alt m) [
      | inl n ↦ left (deriv_complete r u w n)
      | inr n ↦ right (deriv_complete s u w n)
    ])
deriv_complete (star r) u w m =
    let (t, v, k, n, h) = Matches-star u w m refl in
    (and_then-Matches (deriv u r) (star r) w).1 (both t v w (deriv_complete r u t k) n h)

-- A test succeeds exactly when the text is in the language of the expression.
pub test_iff : (r : Regex) (w : Text) → (test r w ≡ true) ↔ Matches r w
unfolding test
test_iff r [] = (nullable-Matches r, λ m. Matches-nullable m refl)
test_iff r (u ∷ w) =
    let (to, from) = test_iff (deriv u r) w in
    (λ h. deriv_sound r u w (to h), λ m. from (deriv_complete r u w m))
