-- ===== src/Tests/StudioRuns.antt =====
-- A run of the page of the Studio.
use beast_db.Views.Header.{explorer}
use beast_db.Prelude.{◌≡◌, All, is_some, true, arith, false, none, some, List, [], ◌∷◌, refl}
use beast_db.Js.Text.{units}
use beast_db.Hooks.Api.{Result, failed}
use beast_db.StudioPage.{
  Page, Session, Call, ReplyOf, Event, choose, ask_delete, confirm_delete, arrive, tell, timer_ends,
  handle, run,
}
use beast_db.StudioPage.Notices.{Spares, run-IsTidy, notice_lasts}
use beast_db.StudioPage.Effects.{IsTidy}
use beast_db.Tests.Samples.{user_record}

abbrev new_page : Page
new_page = record {
  view = explorer;
  new_open = false;
  tokens_open = false;
  analyzer_open = false;
  editing_record = none;
  selected = none;
  delete_key = none;
  delete_user_hash = none;
  notice = none;
  next_notice = 0;
  cleanup = none;
  timers = [];
  key_param = none;
}

abbrev start : Session
start = record { page = new_page; pending = [] }

abbrev refused : (c : Call) → Result (ReplyOf c)
refused c = failed (units "Your account cannot make this change.")

-- A record is chosen, its deletion is refused, and the notice goes away.
abbrev refusal : List Event
refusal =
    choose (some user_record)
    ∷ ask_delete (some (units "1"))
    ∷ confirm_delete
    ∷ arrive 0 refused
    ∷ timer_ends 0
    ∷ []

start-IsTidy : IsTidy new_page
start-IsTidy = record { timed = refl; cleaned = refl; addressed = refl }

run-IsTidy_example : IsTidy (run refusal start).page
run-IsTidy_example = run-IsTidy refusal start start-IsTidy

-- A notice is shown, and told over by the next one before its timer ends.
abbrev told_once : List Event
told_once = tell (units "Copied.") false ∷ []

abbrev after_it : List Event
after_it = choose (some user_record) ∷ timer_ends 0 ∷ []

earlier_timer : (run told_once start).page.next_notice ≡ 1
unfolding run
earlier_timer = refl

only_earlier : All (Spares (run told_once start).page.next_notice) after_it
only_earlier = (tt, (rw earlier_timer (omega arith), tt))

notice_lasts_example :
    is_some (run after_it (handle (tell (units "Saved.") false) (run told_once start))).page.notice
    ≡ true
notice_lasts_example =
    notice_lasts told_once after_it start (units "Saved.") false start-IsTidy only_earlier
