-- ===== src/StudioPage.antt =====
-- studio/src/app/page.tsx: the state of the page, its views, dialogs and notices, its two
-- deletions and the change of a record. Of the address the parameter `key` is kept; what waits for
-- the hook is answered later, and other events may come in between.
pub mod Effects
pub mod Notices
use mathlib.Core.Option
use beast_db.Prelude.{
  ℕ, ◌+◌, Bool, true, false, Option, none, some, List, [], ◌∷◌, ◌++◌, take_out, any, keep, not,
  ◌==◌, if◌then◌else◌,
}
use beast_db.Js.Text.{Text, units}
use beast_db.Js.BigInt.{to_decimal}
use beast_db.Types.{UniversalRecord}
use beast_db.Hooks.Api.{Result, failed, done}
use beast_db.Views.Header.{StudioView}

-- A new object each time: its number tells it from any other, and names the timer set for it.
pub record Notice : Type 0 where
  pub serial : ℕ
  pub message : Text
  pub error : Bool

-- `timers` are those that run; `cleanup` is the notice for which the effect of the notices has run
-- last, and whose timer its cleanup clears.
pub record Page : Type 0 where
  pub view : StudioView
  pub selected : Option UniversalRecord
  pub new_open : Bool
  pub tokens_open : Bool
  pub analyzer_open : Bool
  pub editing_record : Option UniversalRecord
  pub delete_key : Option Text
  pub delete_user_hash : Option ℕ
  pub notice : Option Notice
  pub next_notice : ℕ
  pub cleanup : Option ℕ
  pub timers : List ℕ
  pub key_param : Option Text

-- data.lookup of the address's key, data.remove and data.removeUser; data.update for the panel, and
-- data.lookup after it.
pub data Call : Type 0 where
  looking removing : Text → Call
  removing_user : ℕ → Call
  updating : Text → Text → Call
  rereading : Text → Call

pub record Session : Type 0 where
  pub page : Page
  pub pending : List Call

-- showNotice
unfoldable pub show_notice : Text → Bool → Page → Page
show_notice message error p = record p {
  notice = some (record { serial = p.next_notice; message = message; error = error });
  next_notice = p.next_notice + 1;
}

stop : ℕ → List ℕ → List ℕ
stop t = keep (λ u. not (u == t))

-- The end of a timer that runs; one that has been cleared does not end.
unfoldable pub fire : ℕ → Page → Page
unfolding stop
fire id p =
    if any (λ u. u == id) p.timers then record p { notice = none; timers = stop id p.timers } else p

-- setNotice(null)
unfoldable pub dismiss_notice : Page → Page
dismiss_notice p = record p { notice = none }

-- setSelected
unfoldable pub select : Option UniversalRecord → Page → Page
select r p = record p { selected = r }

shown_serial : Page → Option ℕ
shown_serial p = Option.map (λ n. n.serial) p.notice

is_same : Option ℕ → Option ℕ → Bool
is_same none none = true
is_same (some a) (some b) = a == b
is_same _ _ = false

-- clearTimeout
clear : Option ℕ → List ℕ → List ℕ
unfolding stop
clear none ts = ts
clear (some t) ts = stop t ts

set_timer : Option ℕ → List ℕ → List ℕ
set_timer none ts = ts
set_timer (some t) ts = ts ++ t ∷ []

-- The effect of the notices runs when the notice is another one, after the cleanup of the last run.
notice_effect : Page → Page
unfolding shown_serial is_same clear set_timer
notice_effect p =
    let now = shown_serial p in
    if is_same now p.cleanup
    then p
    else record p { cleanup = now; timers = set_timer now (clear p.cleanup p.timers) }

-- The effect of the selection, which writes what is there where the selection has not changed.
address_effect : Page → Page
address_effect p = record p { key_param = Option.map (λ x. x.key_str) p.selected }

-- The effects, once the state has been set.
unfoldable pub after_render : Page → Page
unfolding notice_effect address_effect
after_render p = address_effect (notice_effect p)

wait : Call → Session → Session
wait c s = record s { pending = s.pending ++ c ∷ [] }

delete_record : Option Text → Session → Session
unfolding wait
delete_record none s = s
delete_record (some []) s = s
delete_record (some (u ∷ k)) s = wait (removing (u ∷ k)) s

unfoldable pub remove : Session → Session
unfolding delete_record
remove s = delete_record s.page.delete_key s

delete_user : Option ℕ → Session → Session
unfolding wait
delete_user none s = s
delete_user (some h) s = wait (removing_user h) s

unfoldable pub remove_user_cascade : Session → Session
unfolding delete_user
remove_user_cascade s = delete_user s.page.delete_user_hash s

-- What each call waits for; removeUser answers how many records it has deleted.
abbrev pub ReplyOf : Call → Type 0
ReplyOf (looking key) = UniversalRecord
ReplyOf (removing key) = Unit
ReplyOf (removing_user h) = ℕ
ReplyOf (updating key value) = Unit
ReplyOf (rereading key) = UniversalRecord

unfoldable pub finish : (c : Call) → Result (ReplyOf c) → Page → Page
unfolding show_notice select to_decimal
finish (looking key) (failed m) p = p
finish (looking key) (done rec) p = select (some rec) p
finish (removing key) (failed m) p = record (show_notice m true p) { delete_key = none }
finish (removing key) (done r) p =
    record (show_notice (units "Record deleted.") false (select none p)) { delete_key = none }
finish (removing_user h) (failed m) p = record (show_notice m true p) { delete_user_hash = none }
finish (removing_user h) (done n) p =
    record (show_notice
      (units "User deleted: " ++ to_decimal n ++ units " associated records removed.") false
      (select none p)) { delete_user_hash = none }
finish (updating key value) (failed m) p = show_notice m true p
finish (updating key value) (done r) p = record p { editing_record = none }
finish (rereading key) (failed m) p = show_notice m true p
finish (rereading key) (done rec) p =
    show_notice (units "Record updated successfully.") false (select (some rec) p)

-- What is awaited next: the record, once it has been changed.
next_of : (c : Call) → Result (ReplyOf c) → List Call
next_of (updating key value) (done r) = rereading key ∷ []
next_of c r = []

pub data Event : Type 0 where
  choose : Option UniversalRecord → Event
  ask_delete : Option Text → Event
  ask_delete_user : Option ℕ → Event
  confirm_delete confirm_delete_user dismiss : Event
  show_view : StudioView → Event
  open_new open_tokens open_analyzer : Bool → Event
  edit : Option UniversalRecord → Event
  commit : Text → Text → Event
  tell : Text → Bool → Event
  timer_ends : ℕ → Event
  arrive : ℕ → ((c : Call) → Result (ReplyOf c)) → Event

arrival : ((c : Call) → Result (ReplyOf c)) → Option (Call × List Call) → Session → Session
unfolding finish next_of after_render
arrival answer none s = s
arrival answer (some (c, cs)) s = record {
  page = after_render (finish c (answer c) s.page);
  pending = cs ++ next_of c (answer c);
}

on_page : (Page → Page) → Session → Session
unfolding after_render
on_page f s = record s { page = after_render (f s.page) }

unfoldable pub handle : Event → Session → Session
unfolding on_page select wait remove remove_user_cascade show_notice dismiss_notice fire arrival
    take_out
handle (choose r) s = on_page (select r) s
handle (ask_delete key) s = on_page (λ p. record p { delete_key = key }) s
handle (ask_delete_user h) s = on_page (λ p. record p { delete_user_hash = h }) s
handle confirm_delete s = remove s
handle confirm_delete_user s = remove_user_cascade s
handle (show_view view) s = on_page (λ p. record p { view = view }) s
handle (open_new b) s = on_page (λ p. record p { new_open = b }) s
handle (open_tokens b) s = on_page (λ p. record p { tokens_open = b }) s
handle (open_analyzer b) s = on_page (λ p. record p { analyzer_open = b }) s
handle (edit r) s = on_page (λ p. record p { editing_record = r }) s
handle (commit key value) s = wait (updating key value) s
handle (tell message error) s = on_page (show_notice message error) s
handle dismiss s = on_page dismiss_notice s
handle (timer_ends id) s = on_page (fire id) s
handle (arrive i answer) s = arrival answer (take_out s.pending i) s

unfoldable pub run : List Event → Session → Session
unfolding handle
run [] s = s
run (e ∷ es) s = run es (handle e s)
