-- ===== src/Explorer/Events.antt =====
-- RecordsView.tsx, what the handlers do with the answers, and the events of a session.
pub mod Continued
use mathlib.Core.Option
use beast_db.Prelude.{
  ℕ, ◌+◌, Bool, true, false, ◌&&◌, Option, none, some, List, [], ◌∷◌, ◌++◌, any, keep, length,
  or_else, take_out, ◌==◌, if◌then◌else◌,
}
use beast_db.Js.Text.{Text, units, same, trim}
use beast_db.Js.Case.{CaseMap, to_lower}
use beast_db.Js.Json.{Json, null, to_text}
use beast_db.Js.BigInt.{to_decimal}
use beast_db.Types.{UniversalRecord, SearchResponse}
use beast_db.Hooks.Api.{Result, failed, done}
use beast_db.Partitions.{Partition, Tally}
use beast_db.Explorer.{
  Pane, SearchMeta, View, Call, Pending, Session, initialize, active_records, filtered_records,
  choose_partition, search_text, continue_scan, lookup_key, scan, clear_search, partitions,
  documents, details, load_partition, search, lookup, scan_range, searching, continuing, looking,
  scanning,
}

notify : Text → Bool → View → View
notify message error v = record v { notices = v.notices ++ (message, error) ∷ [] }

-- The rest of handleSearchText, of handleContinueScan, of handleLookupKey and of handleScanRange.
got_search : Text → SearchResponse → View → View
unfolding notify
got_search query res v =
    notify
      (units "Found "
        ++ to_decimal res.count
        ++ units " matches across "
        ++ to_decimal res.scanned_count
        ++ units " keys.")
      false
      (record v {
        search_results = some res.records;
        search_meta = some (record { query = query; found = res });
        is_search_mode = true;
      })

got_more : SearchMeta → SearchResponse → View → View
unfolding notify
got_more m res v =
    notify
      (units "Scanned +"
        ++ to_decimal res.scanned_count
        ++ units " keys. Total: "
        ++ to_decimal (m.found.count + res.count))
      false
      (record v {
        search_results = some (or_else v.search_results [] ++ res.records);
        search_meta = some (record {
          query = m.query;
          found = record res {
            count = m.found.count + res.count;
            scanned_count = m.found.scanned_count + res.scanned_count;
          };
        });
      })

got_record : UniversalRecord → View → View
got_record rec v = record v {
  partition = to_decimal rec.prefix;
  selected = some rec;
  pane = details;
}

got_range : List UniversalRecord → View → View
unfolding notify
got_range recs v =
    notify (units "Retrieved " ++ to_decimal (length recs) ++ units " records in range.") false
      (record v { search_results = some recs; is_search_mode = true; search_meta = none })

-- What each call waits for.
abbrev pub ReplyOf : Pending → Type 0
ReplyOf (searching query) = SearchResponse
ReplyOf (continuing m) = SearchResponse
ReplyOf looking = UniversalRecord
ReplyOf scanning = List UniversalRecord

got : (p : Pending) → ReplyOf p → View → View
unfolding got_search got_more got_record got_range
got (searching query) res v = got_search query res v
got (continuing m) res v = got_more m res v
got looking rec v = got_record rec v
got scanning recs v = got_range recs v

-- withBusy, from its await on
unfoldable pub settle : (p : Pending) → Result (ReplyOf p) → View → View
unfolding got notify
settle p (failed m) v = record (notify m true v) { busy = false }
settle p (done r) v = record (got p r v) { busy = false }

pub data Event : Type 0 where
  list_partitions : Tally → List Partition → Event
  choose : ℕ → Event
  type_query : Text → Option ℕ → Event
  type_key : Text → Event
  type_range : Text → Text → Event
  click_continue click_clear : Event
  choose_status : Text → Event
  arrive : ℕ → ((p : Pending) → Result (ReplyOf p)) → Event

arrival : Option (Pending × List Pending) → ((p : Pending) → Result (ReplyOf p)) → Session → Session
unfolding settle
arrival none answer s = s
arrival (some (p, ps)) answer s = record s { view = settle p (answer p) s.view; pending = ps }

unfoldable pub handle : Event → Session → Session
unfolding initialize choose_partition search_text lookup_key scan continue_scan clear_search arrival
    take_out
handle (list_partitions counts list) s = initialize counts list s
handle (choose p) s = choose_partition p s
handle (type_query query prefix) s = search_text query prefix s
handle (type_key key) s = lookup_key key s
handle (type_range start_key end_key) s = scan start_key end_key s
handle click_continue s = continue_scan s
handle click_clear s = record s { view = clear_search s.view }
handle (choose_status status) s = record s { view = record (s.view) { status_filter = status } }
handle (arrive i answer) s = arrival (take_out s.pending i) answer s

unfoldable pub run : List Event → Session → Session
unfolding handle
run [] s = s
run (e ∷ es) s = run es (handle e s)
