-- ===== src/Schema/Infer/Scores.antt =====
-- schema-inference.ts: inferCollectionName, against the evidence of the records.
use beast_db.Prelude.{
  ℕ, ◌+◌, ◌≤◌, ◌≡◌, refl, ap, ◌∙◌, Option, none, some, List, [], ◌∷◌, arith, if◌then◌else◌,
}
use native.Mathlib.Nat.{zero-add}
use beast_db.Prelude.Sort.{sort}
use beast_db.Js.Text.{Text}
use beast_db.Js.Case.{CaseMap}
use beast_db.Types.{UniversalRecord}
use beast_db.Schema.Fields.{Candidate}
use beast_db.Schema.Infer.{
  Score, add_candidate, is_readable, name_from_record, tally, infer_collection_name,
}
use beast_db.Schema.Infer.Table.{
  zero_score, absorb, entry, entry-add_candidate, Distinct, add_candidate-Distinct, scores_if,
  count_if, regroup, by_score, decide_label-IsChosen,
}

module _ ⦃c : CaseMap⦄ where
  -- The evidence of a record: none if it is empty or white space.
  abbrev pub evidence : UniversalRecord → Option Candidate
  evidence r = if is_readable r then name_from_record r else none

  -- The score, the number of records and the best confidence of one label, over the records.
  abbrev pub summary : List UniversalRecord → Score → Score
  summary [] s = s
  summary (r ∷ records) s = summary records (absorb (evidence r) s)

  abbrev pub readables : List UniversalRecord → ℕ
  readables [] = 0
  readables (r ∷ records) = readables records + (if is_readable r then 1 else 0)

  tally-cons :
      (r : UniversalRecord) (records : List UniversalRecord) (scores : List Score) (n : ℕ)
      → tally (r ∷ records) scores n
        ≡ tally records (add_candidate (evidence r) scores) (n + (if is_readable r then 1 else 0))
  unfolding tally
  tally-cons r records scores n = λ i.
      tally records (scores_if (is_readable r) (name_from_record r) scores i)
        (count_if (is_readable r) n i)

  entry-tally :
      (l : Text) (records : List UniversalRecord) (scores : List Score) (n : ℕ)
      → entry l (tally records scores n).0 ≡ summary records (entry l scores)
  entry-tally l [] scores n = unfold tally in refl
  entry-tally l (r ∷ records) scores n = rw tally-cons (
      entry-tally l records (add_candidate (evidence r) scores)
        (n + (if is_readable r then 1 else 0))
      ∙ ap (summary records) (entry-add_candidate l (evidence r) scores))

  readable-tally :
      (records : List UniversalRecord) (scores : List Score) (n : ℕ)
      → (tally records scores n).1 ≡ n + readables records
  readable-tally [] scores n = unfold tally in omega arith
  readable-tally (r ∷ records) scores n =
      let more : ℕ = if is_readable r then 1 else 0 in
      rw tally-cons (
        readable-tally records (add_candidate (evidence r) scores) (n + more)
        ∙ regroup n more (readables records))

  tally-Distinct :
      (records : List UniversalRecord) (scores : List Score) (n : ℕ)
      → Distinct scores
      → Distinct (tally records scores n).0
  tally-Distinct [] scores n h = unfold tally in h
  tally-Distinct (r ∷ records) scores n h = rw tally-cons (
      tally-Distinct records (add_candidate (evidence r) scores)
        (n + (if is_readable r then 1 else 0)) (add_candidate-Distinct (evidence r) scores h))

  abbrev pub evidence_for : Text → List UniversalRecord → Score
  evidence_for l records = summary records (zero_score l)

  -- The name that is chosen has no less evidence than any other name, and where none of its
  -- records gives it a confidence above 2, every readable record names it.
  pub record IsBest (l : Text) (records : List UniversalRecord) : Type 0 where
    pub most : (m : Text) → (evidence_for m records).score ≤ (evidence_for l records).score
    pub unanimous :
        (evidence_for l records).confidence ≤ 2 → (evidence_for l records).count ≡ readables records

  -- Where a name is inferred from records, it has no less evidence than any other name, and if none
  -- of its records gives it a confidence above 2, every readable record names it.
  pub infer_collection_name-IsBest :
      (records : List UniversalRecord) (l : Text)
      → infer_collection_name records ≡ some l
      → IsBest l records
  unfolding infer_collection_name
  infer_collection_name-IsBest records l e =
      let table = (tally records [] 0).0 in
      let chosen =
        decide_label-IsChosen table (sort by_score table) (tally records [] 0).1 l refl
          (tally-Distinct records [] 0 tt) e in
      let same = λ (m : Text). entry-tally m records [] 0 in
      record {
        most = λ m. rw (← same m, ← same l) (chosen.most m);
        unanimous = λ h.
            let weak : (entry l table).confidence ≤ 2 = rw (same l) h in
            rw (← same l) (
              chosen.unanimous weak ∙ (readable-tally records [] 0 ∙ zero-add (readables records)));
      }
