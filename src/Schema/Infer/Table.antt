-- ===== src/Schema/Infer/Table.antt =====
-- The table of scores of schema-inference.ts: one entry for each label, and the choice from it.
use beast_db.Prelude.{
  ℕ, ◌+◌, ◌≤◌, ◌≡◌, ◌≢◌, refl, sym, inl, inr, Bool, true, false, Option, none, some, List, [], ◌∷◌,
  arith, max, All, leb, if◌then◌else◌, Bool-cases,
}
use beast_db.Prelude.Sort.{sort, descending, sort-All, sort-All_back, sort-descending, IsSorted}
use beast_db.Js.Text.{Text, same, same_iff, same_refl}
use beast_db.Schema.Fields.{Candidate}
use beast_db.Schema.Infer.{Score, add_score, add_candidate, decide_label}

-- No evidence yet for a label.
abbrev pub zero_score : Text → Score
zero_score l = record { label = l; score = 0; count = 0; confidence = 0 }

-- What one candidate adds to the evidence for a label.
abbrev pub absorb : Option Candidate → Score → Score
absorb none s = s
absorb (some k) s =
    if same s.label k.label
    then record s {
      score = s.score + k.confidence;
      count = s.count + 1;
      confidence = max s.confidence k.confidence;
    }
    else s

-- The entry of a label in the table.
abbrev pub entry : Text → List Score → Score
entry l [] = zero_score l
entry l (s ∷ scores) = if same s.label l then s else entry l scores

entry-label : (l : Text) (scores : List Score) → (entry l scores).label ≡ l
entry-label l [] = refl
entry-label l (s ∷ scores) = ground (arith, same_iff s.label l, entry-label l scores)

entry-add_score :
    (l : Text) (k : Candidate) (scores : List Score)
    → entry l (add_score k scores) ≡ absorb (some k) (entry l scores)
unfolding add_score
entry-add_score l k [] = ground (arith, same_iff k.label l, same_iff l k.label)
entry-add_score l k (s ∷ scores) = ground (
  arith,
  same_iff s.label l,
  same_iff s.label k.label,
  same_iff l k.label,
  entry-label l scores,
  entry-add_score l k scores,
)

pub entry-add_candidate :
    (l : Text) (o : Option Candidate) (scores : List Score)
    → entry l (add_candidate o scores) ≡ absorb o (entry l scores)
unfolding add_candidate
entry-add_candidate l none scores = refl
entry-add_candidate l (some k) scores = entry-add_score l k scores

-- Each label has one entry.
abbrev pub Distinct : List Score → Type 0
Distinct [] = Unit
Distinct (s ∷ scores) = All (λ t. t.label ≢ s.label) scores × Distinct scores

add_score-All :
    (P : Text → Type 0) (k : Candidate) (scores : List Score)
    → P k.label
    → All (λ t. P t.label) scores
    → All (λ t. P t.label) (add_score k scores)
unfolding add_score
add_score-All P k [] p h = (p, tt)
add_score-All P k (s ∷ scores) p (q, h) = elim (Bool-cases (same s.label k.label)) [
  | inl e ↦ rw e (q, h)
  | inr e ↦ rw e (q, add_score-All P k scores p h)
]

add_score-Distinct :
    (k : Candidate) (scores : List Score) → Distinct scores → Distinct (add_score k scores)
unfolding add_score
add_score-Distinct k [] h = (tt, tt)
add_score-Distinct k (s ∷ scores) (p, h) = elim (Bool-cases (same s.label k.label)) [
  | inl e ↦ rw e (p, h)
  | inr e ↦ rw e (
    add_score-All (λ l. l ≢ s.label) k scores (λ q. cc ((same_iff s.label k.label).1 (sym q))) p,
    add_score-Distinct k scores h,
  )
]

later :
    (s : Score) (scores ts : List Score)
    → All (λ t. t.label ≢ s.label) ts
    → All (λ t. entry t.label scores ≡ t) ts
    → All (λ t. entry t.label (s ∷ scores) ≡ t) ts
later s scores [] p h = tt
later s scores (t ∷ ts) (p, ps) (h, hs) =
    (ground (arith, same_iff s.label t.label), later s scores ts ps hs)

pub add_candidate-Distinct :
    (o : Option Candidate) (scores : List Score)
    → Distinct scores
    → Distinct (add_candidate o scores)
unfolding add_candidate
add_candidate-Distinct none scores h = h
add_candidate-Distinct (some k) scores h = add_score-Distinct k scores h

pub scores_if :
    (b : Bool) (o : Option Candidate) (scores : List Score)
    → (if b then add_candidate o scores else scores) ≡ add_candidate (if b then o else none) scores
unfolding add_candidate
scores_if true o scores = refl
scores_if false o scores = refl

pub count_if : (b : Bool) (n : ℕ) → (if b then n + 1 else n) ≡ n + (if b then 1 else 0)
count_if true n = refl
count_if false n = omega arith

pub regroup : (n a b : ℕ) → n + a + b ≡ n + (b + a)
regroup n a b = omega arith

score_of_All :
    (m : Text) (n : ℕ) (scores : List Score)
    → All (λ s. s.score ≤ n) scores
    → (entry m scores).score ≤ n
score_of_All m n [] h = omega arith
score_of_All m n (s ∷ scores) (p, h) = ground (arith, score_of_All m n scores h)

-- In such a table each entry is that of its label.
entry_self : (scores : List Score) → Distinct scores → All (λ s. entry s.label scores ≡ s) scores
entry_self [] h = tt
entry_self (s ∷ scores) (p, h) =
    (rw (same_refl s.label), later s scores scores p (entry_self scores h))

All-score :
    (best : Score) (ts : List Score)
    → All (λ s. leb s.score best.score ≡ true) ts
    → All (λ s. s.score ≤ best.score) ts
All-score best [] h = tt
All-score best (t ∷ ts) (p, h) = (ground arith, All-score best ts h)

abbrev pub by_score : Score → Score → Bool
by_score = descending (λ s. s.score)

-- What the choice from a table guarantees.
pub record IsChosen (l : Text) (scores : List Score) (readable : ℕ) : Type 0 where
  pub most : (m : Text) → (entry m scores).score ≤ (entry l scores).score
  pub unanimous : (entry l scores).confidence ≤ 2 → (entry l scores).count ≡ readable

decide_label-best :
    (best : Score) (others : List Score) (n : ℕ) (l : Text)
    → decide_label (best ∷ others) n ≡ some l
    → (best.label ≡ l) × (best.confidence ≤ 2 → best.count ≡ n)
unfolding decide_label
decide_label-best best others n l e = (ground arith, λ h. ground arith)

pub decide_label-IsChosen :
    (scores sorted : List Score) (n : ℕ) (l : Text)
    → sort by_score scores ≡ sorted
    → Distinct scores
    → decide_label sorted n ≡ some l
    → IsChosen l scores n
decide_label-IsChosen scores [] n l same d e = unfold decide_label in cc
decide_label-IsChosen scores (best ∷ others) n l same d e =
    let (named, weak) = decide_label-best best others n l e in
    let order : IsSorted by_score (best ∷ others) =
      rw same at (sort-descending (λ s. s.score) scores) in
    let greatest : All (λ s. s.score ≤ best.score) scores =
      sort-All_back by_score (λ s. s.score ≤ best.score) scores
        (rw same (omega arith, All-score best others order.0)) in
    let selves : All (λ s. entry s.label scores ≡ s) (best ∷ others) =
      rw same at (sort-All by_score (λ s. entry s.label scores ≡ s) scores (entry_self scores d)) in
    let self : entry l scores ≡ best = rw (← named) selves.0 in
    record {
      most = λ m. rw self (score_of_All m best.score scores greatest);
      unanimous = rw self weak;
    }
