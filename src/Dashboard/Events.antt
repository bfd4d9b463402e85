-- ===== src/Dashboard/Events.antt =====
-- dashboard.js, the events of the page: the handlers up to their `await`, the arrival of an
-- outcome, the timers, and the user's edits.
pub mod Toasts
pub mod Flights
pub mod Tellings
pub mod Timers
use mathlib.Core.Option
use beast_db.Prelude.{
  ℕ, zero, suc, Bool, true, false, Option, none, some, List, take_out, [], ◌∷◌, ◌++◌, if◌then◌else◌,
}
use beast_db.Js.Text.{Text, units, trim}
use beast_db.Js.Json.{Json, str, obj, end, field}
use beast_db.Js.Uri.{encode_uri_component}
use beast_db.Js.Platform.{Platform}
use beast_db.Js.Fetch.{Request}
use beast_db.Dashboard.{
  success, error, Page, Pending, telemetry, getting, putting, deleting, Outcome, Session,
  show_toast, expire, finish_telemetry, finish_get, finish_put, finish_delete,
}

abbrev pub on_page : (Page → Page) → Session → Session
on_page f s = record s { page = f s.page }

abbrev pub send : Pending → Request → Session → Session
send p r s = record s { pending = s.pending ++ p ∷ []; sent = s.sent ++ r ∷ [] }

-- fetchTelemetry, up to its first await
unfoldable pub fetch_telemetry : Session → Session
fetch_telemetry =
    send telemetry (record { method = units "GET"; url = units "/api/stats"; body = none })

key_request : Text → Text → Request
key_request method e = record { method = method; url = units "/api/key?k=" ++ e; body = none }

-- executeGet; a key that cannot be encoded throws inside the `try`.
get_encoded : Text → Option Text → Session → Session
unfolding key_request show_toast
get_encoded key none = on_page (show_toast (units "Network error executing GET") error)
get_encoded key (some e) = send (getting key) (key_request (units "GET") e)

get_key : Text → Session → Session
unfolding get_encoded show_toast
get_key [] = on_page (show_toast (units "Please enter a numeric key") error)
get_key (u ∷ s) = get_encoded (u ∷ s) (encode_uri_component (u ∷ s))

unfoldable pub execute_get : Session → Session
unfolding get_key
execute_get s = get_key (trim s.page.search_key) s

-- executeDelete; the flag is the answer to `confirm`.
delete_encoded : Text → Option Text → Session → Session
unfolding key_request show_toast
delete_encoded key none = on_page (show_toast (units "Network error executing delete") error)
delete_encoded key (some e) = send (deleting key) (key_request (units "DELETE") e)

delete_key : Text → Bool → Session → Session
unfolding delete_encoded show_toast
delete_key [] answer =
    on_page (show_toast (units "Enter a key to delete in the search field") error)
delete_key (u ∷ s) false = λ t. t
delete_key (u ∷ s) true = delete_encoded (u ∷ s) (encode_uri_component (u ∷ s))

unfoldable pub execute_delete : Bool → Session → Session
unfolding delete_key
execute_delete confirmed s = delete_key (trim s.page.search_key) confirmed s

pub data Event : Type 0 where
  edit_search edit_key edit_val : Text → Event
  click_get click_put click_format click_copy : Event
  click_delete : Bool → Event
  tick : Event
  timer : ℕ → Event
  arrive : ℕ → Outcome → Event

-- The rest of a handler, when its outcome is there.
refetch : Page × Bool → Session → Session
unfolding fetch_telemetry
refetch (p, false) s = record s { page = p }
refetch (p, true) s = fetch_telemetry (record s { page = p })

module _ (js : Platform) where
  put_key : Text → Text → Session → Session
  unfolding show_toast
  put_key [] raw = on_page (show_toast (units "Key is required for insert/update") error)
  put_key (u ∷ s) raw = send (putting (u ∷ s) raw) (record {
    method = units "POST";
    url = units "/api/key";
    body =
        some (obj (field (units "key") (js.number (u ∷ s)) (field (units "value") (str raw) end)));
  })

  -- executePut
  unfoldable pub execute_put : Session → Session
  unfolding put_key
  execute_put s = put_key (trim s.page.mutation_key) (trim s.page.mutation_val) s

  unfoldable pub format_json_input : Page → Page
  unfolding show_toast
  format_json_input p = elim (js.parse_json p.mutation_val) [
    | none ↦ show_toast (units "Value is not valid JSON") error p
    | some j ↦ record p { mutation_val = js.pretty j }
  ]

  unfoldable pub copy_inspector : Page → Page
  unfolding show_toast
  copy_inspector p =
      show_toast (units "Inspector content copied to clipboard!") success
        (record p { clipboard = p.inspector })

  unfoldable pub finish : Pending → Outcome → Session → Session
  unfolding refetch finish_telemetry finish_get finish_put finish_delete
  finish telemetry o s = on_page (finish_telemetry js o) s
  finish (getting key) o s = on_page (finish_get js key o) s
  finish (putting key raw) o s = refetch (finish_put js key raw o s.page) s
  finish (deleting key) o s = refetch (finish_delete js key o s.page) s

  arrival : Option (Pending × List Pending) → Outcome → Session → Session
  arrival none o s = s
  arrival (some (p, ps)) o s = finish p o (record s { pending = ps })

  unfoldable pub handle : Event → Session → Session
  unfolding take_out arrival finish execute_get execute_put execute_delete fetch_telemetry expire
  handle (edit_search v) s = on_page (λ p. record p { search_key = v }) s
  handle (edit_key v) s = on_page (λ p. record p { mutation_key = v }) s
  handle (edit_val v) s = on_page (λ p. record p { mutation_val = v }) s
  handle click_get s = execute_get s
  handle click_put s = execute_put s
  handle (click_delete confirmed) s = execute_delete confirmed s
  handle click_format s = on_page format_json_input s
  handle click_copy s = on_page copy_inspector s
  handle tick s = fetch_telemetry s
  handle (timer id) s = on_page (expire id) s
  handle (arrive i o) s = arrival (take_out s.pending i) o s

  -- The page from `DOMContentLoaded` on.
  unfoldable pub run : List Event → Session → Session
  unfolding handle
  run [] s = s
  run (e ∷ es) s = run es (handle e s)

-- A page that has just been loaded, with its first request under way.
unfoldable pub loaded : Session → Session
unfolding fetch_telemetry
loaded s = fetch_telemetry s
