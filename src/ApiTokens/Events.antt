-- ===== src/ApiTokens/Events.antt =====
-- ApiTokensDialog.tsx: the handlers from their `await` on, and the events of the dialog.
pub mod Sent
pub mod Loading
use beast_db.Prelude.{
  ℕ, zero, suc, Bool, true, false, Option, none, some, List, [], ◌∷◌, ◌++◌, or_else, take_out,
  if◌then◌else◌,
}
use beast_db.Js.Text.{Text, units}
use beast_db.Js.Fetch.{is_ok}
use beast_db.Types.{ApiTokenItem}
use beast_db.Hooks.Api.{Result, failed, done, Reply, lost, response}
use beast_db.ApiTokens.{
  Dialog, Call, listing, creation, deletion, Session, on_dialog, notify, fetch_tokens, open_dialog,
  handle_create, handle_delete, copy_to_clipboard, reset_copied,
}

-- What json() gives: `tokens` or `token` of the answer, where it is there.
abbrev pub BodyOf : Call → Type 0
BodyOf listing = Option (List ApiTokenItem)
BodyOf creation = Option Text
BodyOf deletion = Unit {0}

got_tokens : Result (Option (List ApiTokenItem)) → Dialog → Dialog
got_tokens (failed m) d = d
got_tokens (done list) d = record d { tokens = or_else list [] }

-- fetchTokens, once its fetch has settled
listed : Reply (Option (List ApiTokenItem)) → Dialog → Dialog
unfolding got_tokens
listed lost d = record d { loading = false }
listed (response status text json) d = record (if is_ok status then got_tokens json d else d) {
  loading = false;
}

created : Result (Option Text) → Session → Session
unfolding fetch_tokens
created (failed m) s = notify m true s
created (done token) s = fetch_tokens (
    notify (units "API token generated and saved in partition 0x05.") false
      (on_dialog (λ d. record d { new_secret = token; name = []; creating = false }) s))

-- new Error(await res.text())
refused : Result Text → Session → Session
refused (failed m) s = notify m true s
refused (done text) s = notify text true s

-- `trouble` is the message of the error with which fetch rejects.
got_creation : Text → Reply (Option Text) → Session → Session
unfolding created refused
got_creation trouble lost s = notify trouble true s
got_creation trouble (response status text json) s =
    if is_ok status then created json s else refused text s

got_deletion : Text → Reply (Unit {0}) → Session → Session
unfolding fetch_tokens refused
got_deletion trouble lost s = notify trouble true s
got_deletion trouble (response status text json) s =
    if is_ok status then fetch_tokens (notify (units "Token revoked.") false s) else refused text s

unfoldable pub finish : Text → (c : Call) → Reply (BodyOf c) → Session → Session
unfolding listed got_creation got_deletion
finish trouble listing r s = on_dialog (listed r) s
finish trouble creation r s = got_creation trouble r s
finish trouble deletion r s = got_deletion trouble r s

pub data Event : Type 0 where
  open_it start_creating cancel submit copy expire : Event
  type_name choose_role : Text → Event
  delete : Text → Event
  arrive : ℕ → ((c : Call) → Reply (BodyOf c)) → Event

arrival : Text → Option (Call × List Call) → ((c : Call) → Reply (BodyOf c)) → Session → Session
unfolding finish
arrival trouble none answer s = s
arrival trouble (some (c, cs)) answer s = finish trouble c (answer c) (record s { pending = cs })

fire : ℕ → Session → Session
unfolding reset_copied
fire zero s = s
fire (suc n) s = reset_copied (record s { timers = n })

-- The messages of the engine: a rejected fetch, and an id that cannot be encoded.
pub record Messages : Type 0 where
  pub trouble : Text
  pub malformed : Text

unfoldable pub handle : Messages → Event → Session → Session
unfolding open_dialog handle_create handle_delete copy_to_clipboard fire arrival take_out
handle ms open_it s = open_dialog s
handle ms start_creating s = on_dialog (λ d. record d { creating = true }) s
handle ms cancel s = on_dialog (λ d. record d { creating = false }) s
handle ms submit s = handle_create s
handle ms copy s = copy_to_clipboard s
handle ms expire s = fire s.timers s
handle ms (type_name name) s = on_dialog (λ d. record d { name = name }) s
handle ms (choose_role role) s = on_dialog (λ d. record d { role = role }) s
handle ms (delete id) s = handle_delete ms.malformed id s
handle ms (arrive i answer) s = arrival ms.trouble (take_out s.pending i) answer s

unfoldable pub run : Messages → List Event → Session → Session
unfolding handle
run ms [] s = s
run ms (e ∷ es) s = run ms es (handle ms e s)

-- The first render.
abbrev pub closed : Session
closed = record {
  dialog = record {
    tokens = [];
    loading = false;
    creating = false;
    name = [];
    role = units "admin";
    new_secret = none;
    copied = false;
  };
  pending = [];
  sent = [];
  notices = [];
  timers = 0;
  clipboard = [];
}
