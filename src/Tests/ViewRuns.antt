-- ===== src/Tests/ViewRuns.antt =====
-- Runs of the views: the explorer, the checkpoints and the key analyzer.
use beast_db.Prelude.{
  ◌<◌, ◌≡◌, ◌↔◌, refl, true, false, any, All, none, some, List, [], ◌∷◌, ltb, length, if◌then◌else◌,
  ℕ, ◌^◌,
}
use beast_db.Prelude.Sort.{descending, IsSorted}
use beast_db.Js.Text.{units}
use beast_db.Js.Json.{str, num, obj, end, field}
use beast_db.Js.BigInt.{to_decimal}
use beast_db.Types.{UniversalRecord, table}
use beast_db.Hooks.Api.{failed}
use beast_db.Explorer.{documents, View, Session, filtered_records, active_records}
use beast_db.Views.Html.{calls}
use beast_db.Views.Formats.{Formats}
use beast_db.Views.SearchBar.{text}
use beast_db.Views.Page.{Props, records_view}
use beast_db.Views.Page.Writes.{is_write, any-records_view}
use beast_db.Views.Page.Searches.{Gesture, press, receive, IsSingle, use_page, use_page-IsSingle}
use beast_db.Views.Toolbar.{status_counts}
use beast_db.Views.Toolbar.Filters.{has_pill, has_pill-filtered_records}
use beast_db.Views.Tables.{TableProps}
use beast_db.Views.Operations.{Control, click_checkpoint, settle, run}
use beast_db.Views.Operations.Checkpoints.{is_quiet, run-AreQuiet}
use beast_db.Views.Analyzer.{Analyzer, is_valid, decoded_of, hash_seed}
use beast_db.Views.Analyzer.Hashes.{IsApart, is_valid-hash_seed}
use beast_db.Tests.Samples.{ascii_case, engine, user_record, no_names}

abbrev plain : Formats
plain = record {
  log_1024 = λ n. if ltb n 1024 then 0 else if ltb n 1048576 then 1 else 2;
  one_decimal = λ n k. to_decimal n;
  seconds_since = λ s. some 5;
  date_text = λ s. s;
  time_text = λ s. s;
  number_text = λ n. to_decimal n;
  share_link = λ k p. k;
}

abbrev props : Props
props = record {
  records = user_record ∷ [];
  loading = false;
  loading_more = false;
  has_more = false;
  can_write = true;
  error = none;
  partition_counts = none;
  partition_list = [];
  search_mode = text;
  view_mode = table;
  bar = record {
    text_query = units "ann";
    selected_prefix = units "all";
    exact_key = [];
    range_start = [];
    range_end = [];
  };
  page = 1;
  context = record { collections = []; ready = true };
}

abbrev view : View
view = record {
  pane = documents;
  status_filter = units "all";
  busy = false;
  is_search_mode = false;
  search_results = none;
  search_meta = none;
  partition = units "7";
  initialized = true;
  selected = some user_record;
  notices = [];
}

any-records_view_example : any is_write (calls (records_view engine plain props view)) ≡ true
any-records_view_example = any-records_view engine plain props view

abbrev idle : Session
idle = record { view = view; pending = []; calls = [] }

-- Two presses, of which the second finds the page busy, and a failure.
abbrev gestures : List Gesture
gestures = press props 4 ∷ press props 4 ∷ receive 0 (λ p. failed (units "no network")) ∷ []

use_page-IsSingle_example : IsSingle (use_page plain gestures idle)
use_page-IsSingle_example = use_page-IsSingle plain gestures idle refl

abbrev watched : UniversalRecord
watched = record user_record { status = some (str (units "Seen ")) }

abbrev shelf : List UniversalRecord
shelf = watched ∷ user_record ∷ watched ∷ []

has_pill-filtered_records_example :
    ((has_pill (units "seen") 2 (status_counts (active_records shelf view)) ≡ true) ↔ (
      (0 < 2)
      × (length (filtered_records shelf (record view { status_filter = units "seen" })) ≡ 2)))
    × IsSorted (descending (λ e. e.1)) (status_counts (active_records shelf view))
unfolding active_records
has_pill-filtered_records_example =
    has_pill-filtered_records shelf view (units "seen") 2 refl (λ e. cc) refl

abbrev odd : UniversalRecord
odd = record user_record { status = some (obj (field (units "code") (num (units "1")) end)) }

abbrev rows_of : List UniversalRecord → TableProps (List UniversalRecord)
rows_of rs = record {
  records = rs;
  has_more = false;
  loading_more = false;
  on_load_more = none;
  on_select = λ r. (r ∷ []) ∷ [];
  page = 1;
  set_page = λ n. [];
}

abbrev control : Control
control = record {
  checkpointing = false;
  pending = 0;
  sent = [];
  notices = [];
  refreshes = 0;
  opened = [];
}

-- A refusal and a fetch that rejects.
run-AreQuiet_example :
    All
      (λ n. is_quiet n ≡ true)
      (run
        (click_checkpoint ∷ settle (some 403) ∷ click_checkpoint ∷ settle none ∷ [])
        control).notices
run-AreQuiet_example =
    run-AreQuiet (click_checkpoint ∷ settle (some 403) ∷ click_checkpoint ∷ settle none ∷ [])
      control tt

abbrev analyzer : Analyzer
analyzer = record { key = []; seed = units " ann " }

is_valid-hash_seed_example :
    (n : ℕ) × (n < 2 ^ 63)
    × ((hash_seed analyzer).key ≡ to_decimal n)
    × (is_valid (hash_seed analyzer).key ≡ true)
    × IsApart n (hash_seed analyzer).key (decoded_of no_names (hash_seed analyzer).key)
is_valid-hash_seed_example = is_valid-hash_seed no_names analyzer
