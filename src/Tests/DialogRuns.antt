-- ===== src/Tests/DialogRuns.antt =====
-- Runs of the dialog for new records.
use beast_db.Prelude.{arith, ◌≡◌, ◌≢◌, refl, true, false, some, List, [], ◌∷◌, All}
use beast_db.Js.Json.{Json, bool, num, get}
use beast_db.Js.Text.{Text, units, trim}
use beast_db.Js.Radix.{parse_radix, to_radix}
use beast_db.Js.BigInt.{parse_big_int}
use beast_db.Js.Regex.{test}
use beast_db.Hooks.Api.{failed, done}
use beast_db.NewRecord.{
  Dialog, Session, builder, raw, Event, edit, submitted, answered, key_re, is_key, resolved_key,
  run,
}
use beast_db.NewRecord.Fields.{Field, number, boolean, typed_value, collect_fields}
use beast_db.NewRecord.Fields.Document.{collect_fields-get}
use beast_db.NewRecord.Saves.{IsUint64, saves-IsUint64, busy_ends}
use beast_db.NewRecord.Lookups.{saves-run}
use beast_db.NewRecord.Keys.{is_key-resolved_key}
use beast_db.NewRecord.View.{preview_key}
use beast_db.Tests.Samples.{engine}

abbrev new_dialog : Dialog
new_dialog = record {
  key_mode = builder;
  key = [];
  seed = [];
  prefix = 1;
  domain = [];
  item_id = [];
  by_builder = false;
  raw = [];
  fields = [];
  busy = false;
  error = [];
  is_open = true;
  created = false;
}

abbrev start : Session
start = record { dialog = new_dialog; pending = []; saves = [] }

-- Key 17 is typed in and submitted; no record has it, and it is saved.
abbrev typed : Dialog
typed = record new_dialog { key_mode = raw; key = units "17"; raw = units "v" }

abbrev creates : List Event
creates =
    edit typed
    ∷ submitted
    ∷ answered 0 (failed (units "That record was not found."))
    ∷ answered 0 (done tt)
    ∷ []

-- The key is taken.
abbrev taken : List Event
taken = edit typed ∷ submitted ∷ answered 0 (done tt) ∷ []

is_key_runs :
    (is_key (units "18446744073709551615") ≡ some true)
    × (is_key (units "18446744073709551616") ≡ some false)
    × (is_key (units "017") ≡ some false)
unfolding is_key key_re test parse_big_int trim parse_radix
is_key_runs = (refl, refl, refl)

saved_run : (run engine creates start).saves ≡ (units "17", units "v") ∷ []
unfolding run is_key key_re test parse_big_int trim parse_radix
saved_run = refl

over : (run engine creates start).pending ≡ []
unfolding run is_key key_re test parse_big_int trim parse_radix
over = refl

saves-IsUint64_example : All (λ e. IsUint64 e.0 × (e.1 ≢ [])) (run engine creates start).saves
saves-IsUint64_example = saves-IsUint64 engine creates start refl refl refl

busy_ends_example : (run engine creates start).dialog.busy ≡ false
busy_ends_example = busy_ends engine creates start refl refl refl over

saves-run_example : (run engine taken start).saves ≡ start.saves
saves-run_example = saves-run engine taken start (λ h. h, (λ h. h, (λ h. h, tt)))

abbrev age : Field
age = record { id = units "a"; name = units "age"; type = number; value = units "42" }

abbrev is_new : Field
is_new = record { id = units "b"; name = units "7"; type = boolean; value = units "true" }

-- The name 7 is an index, and comes first.
abbrev document : List (Text × Json)
document = (units "7", bool true) ∷ (units "age", num (units "42")) ∷ []

collect_fields_run : collect_fields engine (age ∷ is_new ∷ []) [] ≡ done document
unfolding collect_fields trim parse_radix to_radix
collect_fields_run = refl

collect_fields-get_example :
    All
      (λ f. (j : Json) × (typed_value engine f ≡ done j) × (get document f.name ≡ some j))
      (age ∷ is_new ∷ [])
collect_fields-get_example =
    collect_fields-get engine (age ∷ is_new ∷ []) [] document collect_fields_run

is_key-resolved_key_example :
    (is_key (resolved_key new_dialog) ≡ some true)
    × (preview_key new_dialog ≡ some (resolved_key new_dialog))
is_key-resolved_key_example = is_key-resolved_key new_dialog (λ e. cc) (omega arith)
