-- ===== src/Tests/TokenRuns.antt =====
-- A run of the dialog of the tokens, and one of the edit panel.
use beast_db.Prelude.{◌≡◌, refl, true, false, All, some, List, [], ◌∷◌, arith}
use beast_db.Js.Text.{units}
use beast_db.Hooks.Api.{Reply, lost, response, done, failed}
use beast_db.ApiTokens.{Call, listing, creation, deletion}
use beast_db.ApiTokens.Events.{
  BodyOf, Event, Messages, open_it, start_creating, type_name, submit, delete, arrive, run, closed,
}
use beast_db.ApiTokens.Events.Sent.{is_careful, sent-run}
use beast_db.ApiTokens.Events.Loading.{IsAwaited, run-IsAwaited}
use beast_db.Views.EditRecord
use beast_db.Views.EditRecord.{Panel}
use beast_db.Views.EditRecord.Commits.{IsCareful, run-IsCareful}
use beast_db.Tests.Samples.{engine}

abbrev messages : Messages
messages = record { trouble = units "Failed to fetch"; malformed = units "URI malformed" }

-- The server makes the token, and nothing else can be reached.
abbrev answer : (c : Call) → Reply (BodyOf c)
answer listing = lost
answer creation = response 201 (done []) (done (some (units "beast_1")))
answer deletion = lost

abbrev events : List Event
events =
    open_it
    ∷ arrive 0 answer
    ∷ start_creating
    ∷ type_name (units " backup ")
    ∷ submit
    ∷ arrive 0 answer
    ∷ delete (units "t1")
    ∷ []

sent-run_example : All (λ r. is_careful r ≡ true) (run messages events closed).sent
sent-run_example = sent-run messages events closed tt

run-IsAwaited_example : IsAwaited (run messages events closed)
run-IsAwaited_example = run-IsAwaited messages events closed (omega arith)

abbrev panel : Panel
panel = record {
  key_str = units "1";
  value = units "{";
  saving = false;
  pending = 0;
  saves = [];
  notices = [];
}

-- A text that is no JSON, then one that is saved, and refused by the server.
abbrev edits : List EditRecord.Event
edits =
    EditRecord.click_save
    ∷ EditRecord.type_value (units "plain")
    ∷ EditRecord.click_save
    ∷ EditRecord.settle (failed (units "read only"))
    ∷ []

run-IsCareful_example : IsCareful engine (units "1") (EditRecord.run engine edits panel)
run-IsCareful_example =
    run-IsCareful engine (units "1") edits panel
      (record { same_key = refl; passed = tt; single = refl })
