-- ===== src/NewRecord/Saves.antt =====
-- NewRecordDialog.tsx: the saves, and the flag busy.
use beast_db.Prelude.{
  ℕ, ◌≡◌, ◌≢◌, true, false, some, List, [], ◌∷◌, ◌++◌, arith, All, All-append, take_out,
  take_out-All, Bool-cases, Option-cases, inl, inr,
}
use beast_db.Js.Text.{Text, units, same}
use mathlib.Core.Option.{some-injective}
use beast_db.Js.BigInt.{ℤ, parse_big_int}
use beast_db.Js.Regex.{test}
use beast_db.Js.Platform.{Platform}
use beast_db.Hooks.Api.{Result, failed, done}
use beast_db.NewRecord.{
  Step, looking, saving, Session, resolved_key, is_key, key_re, too_large, begin_lookup, with_value,
  value_of, with_key, submit, looked, saved, Event, edit, submitted, answered, answer, handle, run,
}

-- A key that the form accepts, with a value that is not empty.
abbrev pub IsSound : Text → Text → Type 0
IsSound k v = (is_key k ≡ some true) × (v ≢ [])

abbrev StepSound : Step → Type 0
StepSound (looking k v) = IsSound k v
StepSound (saving k v) = IsSound k v

-- A session whose steps and saves are sound, and that waits for something if it is busy.
record IsCareful (s : Session) : Type 0 where
  steps : All StepSound s.pending
  saves : All (λ e. IsSound e.0 e.1) s.saves
  waits : s.dialog.busy ≡ true → s.pending ≢ []

append-nonempty : {A : Type 0} (xs : List A) (x : A) → (xs ++ x ∷ []) ≢ []
append-nonempty [] x e = cc
append-nonempty (y ∷ xs) x e = cc

IsCareful-begin_lookup :
    (k v : Text) (s : Session) → is_key k ≡ some true → IsCareful s → IsCareful (begin_lookup k v s)
unfolding begin_lookup
IsCareful-begin_lookup k [] s e h = record { steps = h.steps; saves = h.saves; waits = h.waits }
IsCareful-begin_lookup k (u ∷ v) s e h = record {
  steps = All-append StepSound s.pending (looking k (u ∷ v) ∷ []) h.steps ((e, λ q. cc), tt);
  saves = h.saves;
  waits = λ b. append-nonempty s.pending (looking k (u ∷ v));
}

IsCareful-with_value :
    (k : Text) (r : Result Text) (s : Session)
    → is_key k ≡ some true
    → IsCareful s
    → IsCareful (with_value k r s)
unfolding with_value
IsCareful-with_value k (failed m) s e h = record {
  steps = h.steps;
  saves = h.saves;
  waits = h.waits;
}
IsCareful-with_value k (done v) s e h = IsCareful-begin_lookup k v s e h

-- The answer of a lookup, where the steps that are left are sound.
IsCareful-looked :
    (k v : Text) (r : Result (Unit {0})) (s : Session)
    → IsSound k v
    → All StepSound s.pending
    → All (λ e. IsSound e.0 e.1) s.saves
    → IsCareful (looked k v r s)
unfolding looked
IsCareful-looked k v (done u) s q h g = record { steps = h; saves = g; waits = λ b. cc }
IsCareful-looked k v (failed m) s q h g =
    elim (Bool-cases (same m (units "That record was not found."))) [
      | inl e ↦
          rw (e, looked)
            record {
              steps = All-append StepSound s.pending (saving k v ∷ []) h (q, tt);
              saves = All-append (λ e. IsSound e.0 e.1) s.saves ((k, v) ∷ []) g (q, tt);
              waits = λ b. append-nonempty s.pending (saving k v);
            }
      | inr e ↦ rw (e, looked) record { steps = h; saves = g; waits = λ b. cc }
    ]

IsCareful-saved :
    (r : Result (Unit {0})) (s : Session)
    → All StepSound s.pending
    → All (λ e. IsSound e.0 e.1) s.saves
    → IsCareful (saved r s)
unfolding saved
IsCareful-saved (failed m) s h g = record { steps = h; saves = g; waits = λ b. cc }
IsCareful-saved (done u) s h g = record { steps = h; saves = g; waits = λ b. cc }

IsCareful-answered :
    (i : ℕ) (r : Result (Unit {0})) (s : Session)
    → IsCareful s
    → IsCareful (answer (take_out s.pending i) r s)
unfolding answer
IsCareful-answered i r s h = elim (Option-cases (take_out s.pending i)) [
  | inl e ↦ rw (e, answer) h
  | inr ((looking k v, ps), e) ↦
      let (q, left) = take_out-All StepSound s.pending i (looking k v) ps e h.steps in
      rw (e, answer) (IsCareful-looked k v r (record s { pending = ps }) q left h.saves)
  | inr ((saving k v, ps), e) ↦
      let (q, left) = take_out-All StepSound s.pending i (saving k v) ps e h.steps in
      rw (e, answer) (IsCareful-saved r (record s { pending = ps }) left h.saves)
]

module _ (js : Platform) where
  IsCareful-submit : (s : Session) → IsCareful s → IsCareful (submit js s)
  unfolding submit
  IsCareful-submit s h =
      let k = resolved_key s.dialog in
      let t : Session = record s { dialog = record (s.dialog) { error = [] } } in
      let calm : IsCareful t = record { steps = h.steps; saves = h.saves; waits = h.waits } in
      elim (Option-cases (is_key k)) [
        | inl e ↦ rw (e, with_key) calm
        | inr (true, e) ↦ rw (e, with_key) (IsCareful-with_value k (value_of js t.dialog) t e calm)
        | inr (false, e) ↦
            rw (e, with_key) record { steps = h.steps; saves = h.saves; waits = h.waits }
      ]

  IsCareful-handle : (e : Event) (s : Session) → IsCareful s → IsCareful (handle js e s)
  unfolding handle
  IsCareful-handle (edit d) s h = record { steps = h.steps; saves = h.saves; waits = h.waits }
  IsCareful-handle submitted s h = IsCareful-submit s h
  IsCareful-handle (answered i r) s h = IsCareful-answered i r s h

  IsCareful-run : (es : List Event) (s : Session) → IsCareful s → IsCareful (run js es s)
  unfolding run
  IsCareful-run [] s h = h
  IsCareful-run (e ∷ es) s h = IsCareful-run es (handle js e s) (IsCareful-handle e s h)

-- A text that the form accepts as the key of a record: a numeral without leading zeros, of a number
-- of at most 64 bits.
abbrev pub IsUint64 : Text → Type 0
IsUint64 k = (test key_re k ≡ true) × ((z : ℤ) × (parse_big_int k ≡ some z) × (too_large z ≡ false))

IsUint64-is_key : (k : Text) → is_key k ≡ some true → IsUint64 k
unfolding is_key
IsUint64-is_key k h = elim (Bool-cases (test key_re k)) [
  | inl e ↦ elim (Option-cases (parse_big_int k)) [
    | inl f ↦ let bad = rw (e, f) at h in cc
    | inr (z, f) ↦
        let small = rw (e, f) at h in (e, (z, f, ground (arith, some-injective _ _ small)))
  ]
  | inr e ↦ let bad = rw e at h in ground (arith, some-injective _ _ bad)
]

Uint64-All :
    (xs : List (Text × Text))
    → All (λ e. IsSound e.0 e.1) xs
    → All (λ e. IsUint64 e.0 × (e.1 ≢ [])) xs
Uint64-All [] h = tt
Uint64-All ((k, v) ∷ xs) ((a, b), h) = ((IsUint64-is_key k a, b), Uint64-All xs h)

IsCareful-empty :
    (s : Session) → s.pending ≡ [] → s.saves ≡ [] → s.dialog.busy ≡ false → IsCareful s
IsCareful-empty s p q b = record { steps = rw p tt; saves = rw q tt; waits = λ c. cc }

-- Where the dialog is not busy, waits for nothing and has saved nothing: whatever the user and the
-- server do, in any order, every record that is saved has a uint64 numeral as its key, and a value
-- that is not empty.
pub saves-IsUint64 :
    (js : Platform) (es : List Event) (s : Session)
    → s.pending ≡ []
    → s.saves ≡ []
    → s.dialog.busy ≡ false
    → All (λ e. IsUint64 e.0 × (e.1 ≢ [])) (run js es s).saves
saves-IsUint64 js es s p q b = Uint64-All _ (IsCareful-run js es s (IsCareful-empty s p q b)).saves

-- Where the dialog is not busy, waits for nothing and has saved nothing: when all its calls have
-- been answered, in any order, it is not busy.
pub busy_ends :
    (js : Platform) (es : List Event) (s : Session)
    → s.pending ≡ []
    → s.saves ≡ []
    → s.dialog.busy ≡ false
    → (run js es s).pending ≡ []
    → (run js es s).dialog.busy ≡ false
busy_ends js es s p q b over =
    let h = (IsCareful-run js es s (IsCareful-empty s p q b)).waits in
    elim (Bool-cases (run js es s).dialog.busy) [ inl e ↦ absurd (h e over) | inr e ↦ e ]
