-- ===== src/Views/EditRecord/Commits.antt =====
-- What the panel commits, and when it is saving.
use beast_db.Prelude.{
  ℕ, zero, suc, ◌≡◌, refl, Bool, true, false, Option, none, some, List, [], ◌∷◌, All, All-append,
  arith, if◌then◌else◌, Bool-cases, inl, inr,
}
use beast_db.Js.Text.{Text}
use beast_db.Js.Platform.{Platform}
use beast_db.Js.Json.{Json}
use beast_db.Hooks.Api.{Result, failed, done}
use beast_db.Views.EditRecord.{
  Panel, is_refused, set_formatted, format_json, handle_save, finish_save, settled, Event,
  type_value, click_format, click_save, settle, handle, run,
}

-- Every text that has been sent has passed the test, for the key of the record; and the panel is
-- saving exactly while one save is under way.
pub record IsCareful (js : Platform) (key : Text) (s : Panel) : Type 0 where
  pub same_key : s.key_str ≡ key
  pub passed : All (λ e. (is_refused js e.1 ≡ false) × (e.0 ≡ key)) s.saves
  pub single : s.pending ≡ (if s.saving then 1 else 0)

module _ (js : Platform) (key : Text) where
  handle_save-IsCareful :
      (s : Panel) → s.saving ≡ false → IsCareful js key s → IsCareful js key (handle_save js s)
  unfolding handle_save
  handle_save-IsCareful s e h = elim (Bool-cases (is_refused js s.value)) [
    | inl refused ↦
        rw refused (record { same_key = h.same_key; passed = h.passed; single = h.single })
    | inr passed ↦ rw passed (record {
      same_key = h.same_key;
      passed = All-append _ s.saves _ h.passed ((passed, h.same_key), tt);
      single = ground (arith, h.single);
    })
  ]

  settled-IsCareful :
      (n : ℕ) (r : Result (Unit {0})) (s : Panel)
      → n ≡ s.pending
      → IsCareful js key s
      → IsCareful js key (settled n r s)
  unfolding settled finish_save
  settled-IsCareful zero r s e h = h
  settled-IsCareful (suc n) (failed m) s e h = record {
    same_key = h.same_key;
    passed = h.passed;
    single = ground (arith, h.single);
  }
  settled-IsCareful (suc n) (done u) s e h = record {
    same_key = h.same_key;
    passed = h.passed;
    single = ground (arith, h.single);
  }

  set_formatted-IsCareful :
      (o : Option Json) (s : Panel) → IsCareful js key s → IsCareful js key (set_formatted js o s)
  unfolding set_formatted
  set_formatted-IsCareful none s h = record {
    same_key = h.same_key;
    passed = h.passed;
    single = h.single;
  }
  set_formatted-IsCareful (some j) s h = record {
    same_key = h.same_key;
    passed = h.passed;
    single = h.single;
  }

  either-IsCareful :
      (b : Bool) (s t : Panel)
      → IsCareful js key s
      → (b ≡ false → IsCareful js key t)
      → IsCareful js key (if b then s else t)
  either-IsCareful true s t h k = h
  either-IsCareful false s t h k = k refl

  handle-IsCareful : (e : Event) (s : Panel) → IsCareful js key s → IsCareful js key (handle js e s)
  unfolding handle
  handle-IsCareful (type_value v) s h = record {
    same_key = h.same_key;
    passed = h.passed;
    single = h.single;
  }
  handle-IsCareful click_format s h =
      unfold format_json in set_formatted-IsCareful (js.parse_json s.value) s h
  handle-IsCareful click_save s h =
      either-IsCareful s.saving s (handle_save js s) h (λ e. handle_save-IsCareful s e h)
  handle-IsCareful (settle r) s h = settled-IsCareful s.pending r s refl h

  -- In any order of typing, clicks and answers, each text that the panel has committed was for the
  -- key of its record and had passed the check of its JSON, and the panel is saving exactly while
  -- one save is under way, if that held before.
  pub run-IsCareful :
      (es : List Event) (s : Panel) → IsCareful js key s → IsCareful js key (run js es s)
  unfolding run
  run-IsCareful [] s h = h
  run-IsCareful (e ∷ es) s h = run-IsCareful es (handle js e s) (handle-IsCareful e s h)
