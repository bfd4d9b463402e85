-- ===== src/Tests/ReadingRuns.antt =====
-- A partition that is read to its end.
use beast_db.Prelude.{◌+◌, ◌*◌, ◌^◌, ◌≡◌, refl, false, none, List, [], ◌∷◌, arith}
use beast_db.Js.Text.{units}
use beast_db.Hooks.Ranges.{start_key, end_key}
use beast_db.Hooks.Data.{Session}
use beast_db.Hooks.Data.Events.{run}
use beast_db.Hooks.Data.Events.Reading.{reading, shown, entries_of, run-reading}
use beast_db.Server.{Entry}
use beast_db.Tests.Samples.{ascii_case, engine, film_text, no_names}

-- One record before the partition 3, two in it, and one after it.
abbrev store : List Entry
store =
    (5, units "a|b")
    ∷ (3 * 2 ^ 56 + 1, film_text)
    ∷ (3 * 2 ^ 56 + 2, units "[]")
    ∷ (4 * 2 ^ 56, units "x")
    ∷ []

abbrev at_rest : Session
at_rest = record {
  hook = record {
    stats = none;
    user = none;
    records = [];
    loading = false;
    loading_more = false;
    error = none;
    stats_error = none;
    has_more = false;
    next_key = units "0";
    active_partition = none;
    updated_at = none;
  };
  registries = no_names;
  pending = [];
  sent = [];
  escaped = false;
}

run-reading_example :
    ((run engine (reading store 3 1) at_rest).hook.records
      ≡ shown engine no_names (entries_of store 3))
    × ((run engine (reading store 3 1) at_rest).hook.has_more ≡ false)
    × ((run engine (reading store 3 1) at_rest).pending ≡ [])
unfolding start_key end_key
run-reading_example =
    run-reading engine store 3 1 at_rest (omega arith)
      ((refl, (refl, (refl, tt))), ((refl, (refl, tt)), ((refl, tt), (tt, tt))))
      (omega arith, (omega arith, (omega arith, (omega arith, tt)))) (omega arith) refl refl
