-- ===== src/NewRecord/Lookups.antt =====
-- NewRecordDialog.tsx: the lookup before the save.
use beast_db.Prelude.{
  ℕ, ◌≡◌, refl, ◌∙◌, Bool, true, false, Option, none, some, List, [], ◌∷◌, All, take_out,
  Bool-cases, inl, inr,
}
use beast_db.Js.Text.{Text, units, same, same_iff}
use beast_db.Js.Platform.{Platform}
use beast_db.Hooks.Api.{Result, failed, done}
use beast_db.NewRecord.{
  Step, looking, saving, Session, resolved_key, is_key, begin_lookup, with_value, value_of,
  with_key, submit, looked, saved, Event, edit, submitted, answered, answer, handle, run,
}

-- The answer that says that a record is missing.
abbrev pub IsMissing : Event → Type 0
IsMissing (answered i (failed m)) = m ≡ units "That record was not found."
IsMissing _ = ⊥

saves-begin_lookup : (k v : Text) (s : Session) → (begin_lookup k v s).saves ≡ s.saves
unfolding begin_lookup
saves-begin_lookup k [] s = refl
saves-begin_lookup k (u ∷ v) s = refl

saves-with_value : (k : Text) (r : Result Text) (s : Session) → (with_value k r s).saves ≡ s.saves
unfolding with_value
saves-with_value k (failed m) s = refl
saves-with_value k (done v) s = saves-begin_lookup k v s

saves-saved : (r : Result (Unit {0})) (s : Session) → (saved r s).saves ≡ s.saves
unfolding saved
saves-saved (failed m) s = refl
saves-saved (done u) s = refl

saves-looked :
    (i : ℕ) (k v : Text) (r : Result (Unit {0})) (s : Session)
    → ¬ IsMissing (answered i r)
    → (looked k v r s).saves ≡ s.saves
unfolding looked
saves-looked i k v (done u) s h = refl
saves-looked i k v (failed m) s h =
    elim (Bool-cases (same m (units "That record was not found."))) [
      | inl e ↦ absurd (h ((same_iff m (units "That record was not found.")).0 e))
      | inr e ↦ rw (e, looked) refl
    ]

saves-answer :
    (i : ℕ) (o : Option (Step × List Step)) (r : Result (Unit {0})) (s : Session)
    → ¬ IsMissing (answered i r)
    → (answer o r s).saves ≡ s.saves
unfolding answer
saves-answer i none r s h = refl
saves-answer i (some (looking k v, ps)) r s h = saves-looked i k v r _ h
saves-answer i (some (saving k v, ps)) r s h = saves-saved r _

module _ (js : Platform) where
  saves-with_key : (k : Text) (o : Option Bool) (s : Session) → (with_key js k o s).saves ≡ s.saves
  unfolding with_key
  saves-with_key k none s = refl
  saves-with_key k (some true) s = saves-with_value k (value_of js s.dialog) s
  saves-with_key k (some false) s = refl

  saves-handle : (e : Event) (s : Session) → ¬ IsMissing e → (handle js e s).saves ≡ s.saves
  unfolding handle
  saves-handle (edit d) s h = refl
  saves-handle submitted s h =
      let k = resolved_key s.dialog in
      unfold submit in
      saves-with_key k (is_key k) (record s { dialog = record (s.dialog) { error = [] } })
  saves-handle (answered i r) s h = saves-answer i (take_out s.pending i) r s h

  -- As long as no answer says that a record was not found, nothing is saved, whatever the user does
  -- and however the answers are ordered.
  pub saves-run :
      (es : List Event) (s : Session) → All (λ e. ¬ IsMissing e) es → (run js es s).saves ≡ s.saves
  unfolding run
  saves-run [] s h = refl
  saves-run (e ∷ es) s (p, h) = saves-run es (handle js e s) h ∙ saves-handle e s p
