-- ===== src/Tests/ExplorerRuns.antt =====
-- A run of the explorer.
use beast_db.Prelude.{refl, true, false, none, some, [], ◌∷◌}
use beast_db.Js.Text.{units}
use beast_db.Types.{SearchResponse}
use beast_db.Explorer.{documents, View, SearchMeta, Session}
use beast_db.Explorer.Events.{type_query, arrive, run}
use beast_db.Explorer.Events.Continued.{with_response, go_on, IsShowing, IsTotal, run-IsTotal}
use beast_db.Tests.Samples.{user_record, blank_record}

abbrev first_answer : SearchResponse
first_answer = record {
  records = user_record ∷ [];
  count = 1;
  scanned_count = 500;
  next_key = some (units "900");
  has_more = true;
  prefix = some 7;
}

abbrev last_answer : SearchResponse
last_answer = record {
  records = blank_record ∷ [];
  count = 1;
  scanned_count = 20;
  next_key = none;
  has_more = false;
  prefix = some 7;
}

abbrev new_view : View
new_view = record {
  pane = documents;
  status_filter = units "all";
  busy = false;
  is_search_mode = false;
  search_results = none;
  search_meta = none;
  partition = units "7";
  initialized = true;
  selected = none;
  notices = [];
}

abbrev new_session : Session
new_session = record { view = new_view; pending = []; calls = [] }

-- The user has searched, and the first answer is there.
abbrev searched : Session
searched =
    run (type_query (units "ann") (some 7) ∷ arrive 0 (with_response first_answer) ∷ []) new_session

abbrev found : SearchMeta
found = record { query = units "ann"; found = first_answer }

searched-IsShowing : IsShowing (user_record ∷ []) found searched
unfolding run
searched-IsShowing = record { none_waits = refl; results = refl; meta = refl }

run-IsTotal_example :
    IsTotal
      (user_record ∷ [])
      found
      (last_answer ∷ [])
      searched
      (run (go_on (last_answer ∷ [])) searched)
run-IsTotal_example =
    run-IsTotal (last_answer ∷ []) (user_record ∷ []) found searched searched-IsShowing (refl, tt)
