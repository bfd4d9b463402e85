-- ===== src/Explorer.antt =====
-- studio/src/components/RecordsView.tsx: the state of the explorer, and what its events do. A call
-- of the hook waits until it is answered. The page gives the component all of its functions.
pub mod Events
use mathlib.Core.Option
use beast_db.Prelude.{
  ℕ, ◌+◌, Bool, true, false, ◌&&◌, Option, none, some, List, [], ◌∷◌, ◌++◌, any, keep, length,
  or_else, take_out, ◌==◌, if◌then◌else◌,
}
use beast_db.Js.Text.{Text, units, same, trim}
use beast_db.Js.Case.{CaseMap, to_lower}
use beast_db.Js.Json.{Json, null, to_text}
use beast_db.Js.BigInt.{to_decimal}
use beast_db.Types.{UniversalRecord, SearchResponse}
use beast_db.Hooks.Api.{Result, failed, done}
use beast_db.Partitions.{Partition, Tally}

pub data Pane : Type 0 where
  partitions documents details : Pane

-- SearchResponse & { query: string }
pub record SearchMeta : Type 0 where
  pub query : Text
  pub found : SearchResponse

pub record View : Type 0 where
  pub pane : Pane
  pub status_filter : Text
  pub busy : Bool
  pub is_search_mode : Bool
  pub search_results : Option (List UniversalRecord)
  pub search_meta : Option SearchMeta
  pub partition : Text
  pub initialized : Bool
  pub selected : Option UniversalRecord
  pub notices : List (Text × Bool)

-- onLoadPartition, onSearch, onLookup and onScanRange.
pub data Call : Type 0 where
  load_partition : ℕ → Call
  search : Text → Option ℕ → Option Text → Call
  lookup : Text → Call
  scan_range : Text → Text → Call

-- What waits; a scan that goes on has the searchMeta of its click.
pub data Pending : Type 0 where
  searching : Text → Pending
  continuing : SearchMeta → Pending
  looking scanning : Pending

pub record Session : Type 0 where
  pub view : View
  pub pending : List Pending
  pub calls : List Call

-- withBusy, up to the await of its function
begin : Pending → Call → Session → Session
begin p c s = record {
  view = record (s.view) { busy = true };
  pending = s.pending ++ p ∷ [];
  calls = s.calls ++ c ∷ [];
}

-- The effect that opens the first partition, once.
unfoldable pub initialize : Tally → List Partition → Session → Session
initialize none list s = s
initialize (some counts) [] s = s
initialize (some counts) (x ∷ list) s =
    let first = if any (λ y. y.prefix == 1) (x ∷ list) then 1 else x.prefix in
    if s.view.initialized then s else record s {
      view = record (s.view) { initialized = true; partition = to_decimal first };
      calls = s.calls ++ load_partition first ∷ [];
    }

unfoldable pub active_records : List UniversalRecord → View → List UniversalRecord
active_records records v = if v.is_search_mode then or_else v.search_results records else records

-- String(r.status ?? "")
unfoldable pub status_text : Option Json → Text
status_text none = []
status_text (some null) = []
status_text (some j) = to_text j

unfoldable pub filtered_records : ⦃c : CaseMap⦄ → List UniversalRecord → View → List UniversalRecord
unfolding active_records status_text
filtered_records records v =
    let active = active_records records v in
    if same v.status_filter (units "all")
    then active
    else keep (λ r. same (to_lower (trim (status_text r.status))) v.status_filter) active

unfoldable pub choose_partition : ℕ → Session → Session
choose_partition p s = record s {
  view = record (s.view) {
    partition = to_decimal p;
    status_filter = units "all";
    is_search_mode = false;
    search_results = none;
    selected = none;
    pane = documents;
  };
  calls = s.calls ++ load_partition p ∷ [];
}

unfoldable pub search_text : Text → Option ℕ → Session → Session
unfolding begin
search_text query prefix = begin (searching query) (search query prefix none)

abbrev idle : Session → Session
idle s = record s { view = record (s.view) { busy = false } }

continue_from : SearchMeta → Option Text → Session → Session
unfolding begin
continue_from m none s = idle s
continue_from m (some []) s = idle s
continue_from m (some (u ∷ k)) s =
    begin (continuing m) (search m.query m.found.prefix (some (u ∷ k))) s

unfoldable pub continue_scan : Session → Session
unfolding continue_from
continue_scan s = elim s.view.search_meta [
  | none ↦ idle s
  | some m ↦ continue_from m m.found.next_key s
]

unfoldable pub lookup_key : Text → Session → Session
unfolding begin
lookup_key key = begin looking (lookup key)

unfoldable pub scan : Text → Text → Session → Session
unfolding begin
scan start_key end_key = begin scanning (scan_range start_key end_key)

unfoldable pub clear_search : View → View
clear_search v = record v { is_search_mode = false; search_results = none; search_meta = none }
