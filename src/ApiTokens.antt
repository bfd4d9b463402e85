-- ===== src/ApiTokens.antt =====
-- studio/src/components/ApiTokensDialog.tsx: the state of the dialog, and its handlers up to the
-- `await` of fetch. A call of the server waits in the session until it is answered.
pub mod Events
pub mod View
use beast_db.Prelude.{
  ℕ, ◌+◌, Bool, true, false, Option, none, some, List, [], ◌∷◌, ◌++◌, if◌then◌else◌,
}
use beast_db.Js.Text.{Text, units, trim}
use beast_db.Js.Json.{Json, str, obj, end, field}
use beast_db.Js.Uri.{encode_uri_component}
use beast_db.Js.Fetch.{Request}
use beast_db.Types.{ApiTokenItem}

pub record Dialog : Type 0 where
  pub tokens : List ApiTokenItem
  pub loading : Bool
  pub creating : Bool
  pub name : Text
  pub role : Text
  pub new_secret : Option Text
  pub copied : Bool

-- The calls of fetchTokens, of handleCreate and of handleDelete.
pub data Call : Type 0 where
  listing creation deletion : Call

-- `timers` counts the timers of copyToClipboard, `clipboard` what it has written.
pub record Session : Type 0 where
  pub dialog : Dialog
  pub pending : List Call
  pub sent : List Request
  pub notices : List (Text × Bool)
  pub timers : ℕ
  pub clipboard : List Text

abbrev pub send : Call → Request → Session → Session
send c r s = record s { pending = s.pending ++ c ∷ []; sent = s.sent ++ r ∷ [] }

abbrev pub on_dialog : (Dialog → Dialog) → Session → Session
on_dialog f s = record s { dialog = f s.dialog }

abbrev pub notify : Text → Bool → Session → Session
notify message error s = record s { notices = s.notices ++ (message, error) ∷ [] }

unfoldable pub fetch_tokens : Session → Session
fetch_tokens s =
    send listing (record { method = units "GET"; url = units "/api/tokens"; body = none })
      (on_dialog (λ d. record d { loading = true }) s)

-- The effect when the dialog opens.
unfoldable pub open_dialog : Session → Session
unfolding fetch_tokens
open_dialog s = on_dialog (λ d. record d { new_secret = none; name = [] }) (fetch_tokens s)

-- The POST of handleCreate, with a name that is trimmed.
unfoldable pub post_token : Text → Session → Session
post_token [] s = s
post_token (u ∷ name) s =
    let sent =
      obj (field (units "name") (str (u ∷ name)) (field (units "role") (str s.dialog.role) end)) in
    send creation (record { method = units "POST"; url = units "/api/tokens"; body = some sent }) s

unfoldable pub handle_create : Session → Session
unfolding post_token trim
handle_create s = post_token (trim s.dialog.name) s

-- encodeURIComponent throws inside the `try`.
delete_encoded : Text → Option Text → Session → Session
delete_encoded malformed none s = notify malformed true s
delete_encoded malformed (some e) s =
    send deletion
      (record { method = units "DELETE"; url = units "/api/tokens?id=" ++ e; body = none }) s

unfoldable pub handle_delete : Text → Text → Session → Session
unfolding delete_encoded encode_uri_component
handle_delete malformed id s = delete_encoded malformed (encode_uri_component id) s

copy_secret : Option Text → Session → Session
copy_secret none s = s
copy_secret (some []) s = s
copy_secret (some (u ∷ t)) s = notify (units "Token copied to clipboard!") false (record s {
  dialog = record (s.dialog) { copied = true };
  timers = s.timers + 1;
  clipboard = s.clipboard ++ (u ∷ t) ∷ [];
})

unfoldable pub copy_to_clipboard : Session → Session
unfolding copy_secret
copy_to_clipboard s = copy_secret s.dialog.new_secret s

-- A timer at its end.
unfoldable pub reset_copied : Session → Session
reset_copied s = on_dialog (λ d. record d { copied = false }) s
