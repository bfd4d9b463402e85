-- ===== src/Js/Text/Split.antt =====
-- Splitting a text and joining the parts again.
use beast_db.Prelude.{
  ℕ, ◌≡◌, refl, sym, ◌∙◌, false, All, List, [], ◌∷◌, ◌++◌, arith, append-nil, append_assoc, ◌==◌,
  Bool-cases, inl, inr, ==_iff,
}
use beast_db.Js.Text.{Text, split_from, split, join}

-- A split has a first part.
split_from-cons :
    (c : ℕ) (part s : Text) → (p : Text) × (ps : List Text) × (split_from c part s ≡ p ∷ ps)
unfolding split_from
split_from-cons c part [] = (part, [], refl)
split_from-cons c part (u ∷ s) = elim (Bool-cases (u == c)) [
  | inl e ↦ (part, split_from c [] s, rw e)
  | inr e ↦ rw e (split_from-cons c (part ++ u ∷ []) s)
]

join-cons :
    (c : ℕ) (p part s : Text)
    → join (c ∷ []) (p ∷ split_from c part s) ≡ p ++ c ∷ join (c ∷ []) (split_from c part s)
unfolding join
join-cons c p part s = let (q, ps, e) = split_from-cons c part s in rw e

join-split_from : (c : ℕ) (part s : Text) → join (c ∷ []) (split_from c part s) ≡ part ++ s
unfolding split_from
join-split_from c part [] = unfold join in sym (append-nil part)
join-split_from c part (u ∷ s) = elim (Bool-cases (u == c)) [
  | inl e ↦
      let here : u ≡ c = (==_iff u c).0 e in
      rw e (join-cons c part [] s ∙ rw (join-split_from c [] s, here))
  | inr e ↦ rw e (join-split_from c (part ++ u ∷ []) s ∙ append_assoc part (u ∷ []) s)
]

-- The parts of a text, joined by the unit that it was split at, are the text.
pub join-split : (c : ℕ) (s : Text) → join (c ∷ []) (split c s) ≡ s
unfolding split
join-split c s = join-split_from c [] s

-- No unit of the text is the separator.
abbrev pub Without : ℕ → Text → Type 0
Without c s = All (λ u. (u == c) ≡ false) s

split_from-append :
    (c : ℕ) (p a b : Text)
    → Without c a
    → split_from c p (a ++ c ∷ b) ≡ (p ++ a) ∷ split_from c [] b
unfolding split_from
split_from-append c p [] b h = ground (arith, append-nil p)
split_from-append c p (u ∷ a) b (d, h) =
    ground (arith, split_from-append c (p ++ u ∷ []) a b h, append_assoc p (u ∷ []) a)

split_from-Without : (c : ℕ) (p a : Text) → Without c a → split_from c p a ≡ (p ++ a) ∷ []
unfolding split_from
split_from-Without c p [] h = ground (arith, append-nil p)
split_from-Without c p (u ∷ a) (d, h) =
    ground (arith, split_from-Without c (p ++ u ∷ []) a h, append_assoc p (u ∷ []) a)

pub split-append : (c : ℕ) (a b : Text) → Without c a → split c (a ++ c ∷ b) ≡ a ∷ split c b
unfolding split
split-append c a b h = split_from-append c [] a b h

pub split-Without : (c : ℕ) (a : Text) → Without c a → split c a ≡ a ∷ []
unfolding split
split-Without c a h = split_from-Without c [] a h
