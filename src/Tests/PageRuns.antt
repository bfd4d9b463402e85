-- ===== src/Tests/PageRuns.antt =====
-- Runs of dashboard.js.
use beast_db.Js.Uri.{encode_uri_component}
use beast_db.Prelude.{◌≡◌, refl, false, List, [], ◌∷◌, ◌++◌, All, ◌≢◌, arith}
use beast_db.Js.Text.{units, trim}
use beast_db.Dashboard.{success, Page, putting, lost, full, Session}
use beast_db.Dashboard.Events.{
  Event, edit_search, edit_key, click_get, click_put, tick, timer, arrive, click_delete, finish,
  run,
}
use beast_db.Dashboard.Events.Toasts.{kinds, verdict, kinds-finish}
use beast_db.Dashboard.Events.Timers.{toast_of, telling, IsTaken, timer-show_toast}
use beast_db.Dashboard.Events.Tellings.{Allowed}
use beast_db.Dashboard.Events.Flights.{IsRead, HasKey, run-HasKey, run-IsRead}
use beast_db.Tests.Samples.{engine}

abbrev new_page : Page
new_page = record {
  search_key = [];
  mutation_key = [];
  mutation_val = [];
  inspector = [];
  inspector_error = false;
  stat_lsn = [];
  stat_role = [];
  stat_mode = [];
  toasts = [];
  next_toast = 0;
  clipboard = [];
}

abbrev new_session : Session
new_session = record { page = new_page; pending = []; sent = [] }

-- A GET of key 7, whose answer comes after the user has clicked once more without a key.
abbrev reads : List Event
reads =
    edit_search (units "7")
    ∷ click_get
    ∷ edit_search []
    ∷ click_get
    ∷ tick
    ∷ arrive 0 (full 200 (units "v"))
    ∷ []

-- A write of key 8, and a delete that the user does not confirm.
abbrev writes : List Event
writes = edit_key (units " 8 ") ∷ click_put ∷ click_delete false ∷ arrive 0 (full 201 []) ∷ []

kinds-finish_example :
    kinds (finish engine (putting (units "8") (units "v")) lost new_session).page
    ≡ kinds new_page ++ verdict (putting (units "8") (units "v")) lost
kinds-finish_example = kinds-finish engine (putting (units "8") (units "v")) lost new_session

-- A GET without a key, which tells an error, and the end of the first toast.
abbrev goes_on : List Event
goes_on = edit_search [] ∷ click_get ∷ timer 0 ∷ []

two_toasts : (run engine reads new_session).page.next_toast ≡ 2
unfolding run trim encode_uri_component
two_toasts = refl

only_others : All (Allowed (λ id. id ≢ (run engine reads new_session).page.next_toast)) goes_on
only_others = (tt, (tt, ((λ e. omega (arith, e, two_toasts)), tt)))

timer-show_toast_example :
    IsTaken
      (toast_of (units "hi") success (run engine reads new_session))
      (run engine goes_on (telling (units "hi") success (run engine reads new_session))).page
timer-show_toast_example =
    timer-show_toast engine reads goes_on new_session (units "hi") success refl only_others

run-HasKey_example : All HasKey (run engine writes new_session).pending
run-HasKey_example = run-HasKey engine writes new_session refl

run-IsRead_example : All IsRead (run engine reads new_session).sent
run-IsRead_example =
    run-IsRead engine reads new_session refl tt
      (λ h. h, (λ h. h, (λ h. h, (λ h. h, (λ h. h, (λ h. h, tt))))))
