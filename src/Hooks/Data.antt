-- ===== src/Hooks/Data.antt =====
-- studio/src/hooks/useStudioData.ts: the state of the hook, and its functions up to their `await`.
-- A call of the server waits in the session until its answer arrives; other events may come in
-- between. Promises that the functions give back to the components are not kept.
pub mod Events
use beast_db.Prelude.{
  ℕ, Bool, true, false, not, ◌&&◌, Option, none, some, List, [], ◌∷◌, ◌++◌, if◌then◌else◌,
}
use beast_db.Js.Text.{Text, units}
use beast_db.Js.Json.{Json, bool, str, obj, end, field}
use beast_db.Js.BigInt.{to_decimal}
use beast_db.Js.Uri.{encode_uri_component}
use beast_db.Js.Fetch.{Request}
use beast_db.Types.{UniversalRecord, TelemetryStats, SessionUser}
use beast_db.Keys.Registry.{Registries}
use beast_db.Hooks.Ranges.{start_key, end_key}

pub record RawRecord : Type 0 where
  pub key_text : Text
  pub value : Text

pub record Page : Type 0 where
  pub records : List RawRecord
  pub next_key_text : Text
  pub has_more : Bool

-- The variables of useState; updatedAt is the time of the answer.
pub record Studio : Type 0 where
  pub stats : Option TelemetryStats
  pub user : Option SessionUser
  pub records : List UniversalRecord
  pub loading : Bool
  pub loading_more : Bool
  pub error : Option Text
  pub stats_error : Option Text
  pub has_more : Bool
  pub next_key : Text
  pub active_partition : Option ℕ
  pub updated_at : Option ℕ

-- What waits for the server: loadPartition; refresh, for its three calls and then for the counts;
-- the timer's fetchStats; loadMore; postKey, remove and removeUser before their refresh.
pub data Call : Type 0 where
  partition : Text → Call
  listing : Call
  counts : Call
  poll : Call
  more : Text → Call
  write : Text → Call

-- `escaped` says that an error has got past the hook: in a promise that nobody awaits, or in the
-- function that setStats is given.
pub record Session : Type 0 where
  pub hook : Studio
  pub registries : Registries
  pub pending : List Call
  pub sent : List Request
  pub escaped : Bool

abbrev pub get_of : Text → Request
get_of url = record { method = units "GET"; url = url; body = none }

abbrev pub send : Call → List Request → Session → Session
send c rs s = record s { pending = s.pending ++ c ∷ []; sent = s.sent ++ rs }

abbrev pub on_hook : (Studio → Studio) → Session → Session
on_hook f s = record s { hook = f s.hook }

start_loading : Option ℕ → Studio → Studio
start_loading active h = record h { loading = true; error = none; active_partition = active }

partition_url : ℕ → Text
unfolding start_key end_key to_decimal
partition_url prefix =
    units "/api/records?start="
    ++ to_decimal (start_key prefix)
    ++ units "&end="
    ++ to_decimal (end_key prefix)
    ++ units "&limit=100"

unfoldable pub load_partition : ℕ → Session → Session
unfolding start_loading partition_url
load_partition prefix s =
    let url = partition_url prefix in
    send (partition url) (get_of url ∷ []) (on_hook (start_loading (some prefix)) s)

-- The three calls are under way at once, and the function goes on when all have settled.
unfoldable pub refresh : Session → Session
unfolding start_loading
refresh s =
    send listing
      (get_of (units "/api/records?limit=100")
        ∷ get_of (units "/api/me")
        ∷ get_of (units "/api/partitions")
        ∷ [])
      (on_hook (start_loading s.hook.active_partition) s)

stats_url : Bool → Text
stats_url include_counts =
    if include_counts then units "/api/stats?counts=true" else units "/api/stats"

unfoldable pub fetch_stats : Call → Bool → Session → Session
unfolding stats_url
fetch_stats c include_counts = send c (get_of (stats_url include_counts) ∷ [])

pub more_url : Studio → Text
unfolding end_key to_decimal
more_url h =
    units "/api/records?start="
    ++ h.next_key
    ++ units "&limit=100"
    ++ elim h.active_partition [ none ↦ [] | some p ↦ units "&end=" ++ to_decimal (end_key p) ]

unfoldable pub load_more : Session → Session
unfolding more_url
load_more s =
    let url = more_url s.hook in
    if s.hook.has_more && not s.hook.loading_more
    then send (more url) (get_of url ∷ []) (on_hook (λ h. record h { loading_more = true }) s)
    else s

-- save has createOnly, update has not.
unfoldable pub post_key : Text → Text → Bool → Session → Session
post_key key value create_only =
    let sent = obj (
      field (units "key") (str key)
        (field (units "value") (str value) (field (units "createOnly") (bool create_only) end))) in
    send (write (units "/api/key"))
      (record { method = units "POST"; url = units "/api/key"; body = some sent } ∷ [])

delete_at : Text → Session → Session
delete_at url = send (write url) (record { method = units "DELETE"; url = url; body = none } ∷ [])

-- A key that cannot be encoded throws before anything is sent.
unfoldable pub remove : Text → Session → Session
unfolding delete_at
remove key s = elim (encode_uri_component key) [
  | none ↦ s
  | some e ↦ delete_at (units "/api/key?k=" ++ e) s
]

unfoldable pub remove_user : ℕ → Session → Session
unfolding delete_at to_decimal
remove_user user_hash = delete_at (units "/api/user?userHash=" ++ to_decimal user_hash)
