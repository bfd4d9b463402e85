-- ===== src/Tests/NameRuns.antt =====
-- A run of the inferred names: the counts change while a sample is under way.
use beast_db.Prelude.{ℕ, false, Option, some, List, [], ◌∷◌, All, refl}
use beast_db.Js.Text.{units}
use beast_db.Hooks.Api.{done, response}
use beast_db.Hooks.Data.{Page}
use beast_db.Hooks.PartitionNames.{Session, Event, counted, left, answered, change, run}
use beast_db.Hooks.PartitionNames.Current.{IsSampled, inferred_registry-IsSampled}
use beast_db.Tests.Samples.{ascii_case, engine, film_text, no_names}

abbrev sample : Page
sample = record {
  records = record { key_text = units "17"; value = film_text } ∷ [];
  next_key_text = units "18";
  has_more = false;
}

abbrev before : Option (List (ℕ × ℕ))
before = some ((1, 4) ∷ (2, 1) ∷ [])

abbrev after : Option (List (ℕ × ℕ))
after = some ((3, 2) ∷ (4, 0) ∷ (900, 1) ∷ [])

abbrev at_first : Session
at_first = record { registries = no_names; revision = 0; loads = [] }

-- The counts change twice, while two samples of the first load are still under way.
abbrev earlier : List Event
earlier = counted before ∷ []

abbrev answers : List Event
answers =
    answered 1 0 (response 200 (done []) (done sample))
    ∷ answered 0 0 (response 200 (done []) (done sample))
    ∷ left
    ∷ []

inferred_registry-IsSampled_example :
    All
      (λ e. IsSampled after e.0)
      (run engine answers (change after (run engine earlier at_first))).registries.inferred_registry
inferred_registry-IsSampled_example =
    inferred_registry-IsSampled engine after earlier answers at_first refl
      (λ h. h, (λ h. h, (λ h. h, tt)))
