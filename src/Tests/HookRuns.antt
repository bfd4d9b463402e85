-- ===== src/Tests/HookRuns.antt =====
-- Runs of the hooks, the client of the server, and the display.
use beast_db.Hooks.Data.Events.Escapes.{HasContent, AnswersHaveContent}
use beast_db.Prelude.{
  ◌≡◌, ◌≤◌, ◌↔◌, ◌==◌, ◌++◌, refl, true, false, Option, none, some, List, [], ◌∷◌, ℕ, arith, count,
  if◌then◌else◌, All,
}
use beast_db.Js.Text.{units}
use beast_db.Js.BigInt.{to_decimal}
use beast_db.Types.{UniversalRecord}
use beast_db.Keys.Decoder.{decode_key}
use beast_db.Hooks.Api.{api}
use beast_db.Hooks.Ranges.{start_key, end_key, user_base, user_end}
use beast_db.Hooks.Ranges.Decoded.{partition_range_iff, user_range_iff}
use beast_db.Hooks.Data.{Page, Session, more, Call, partition, listing, counts, poll, write}
use beast_db.Hooks.Data.Events.{
  Event, open_partition, reload, click_more, tick, arrive, parse_page, run, opened,
}
use beast_db.Hooks.Data.Events.Tracks.{is_more}
use beast_db.Hooks.Data.Events.Loading.{more_once, loading_ends}
use beast_db.Hooks.Data.Events.Pages.{with_page, records-late, pending-refresh}
use beast_db.Hooks.UserContext.{finish_load}
use beast_db.Hooks.UserContext.Collected.{IsCollected, finish_load-IsCollected}
use beast_db.Tests.Samples.{ascii_case, engine, film_text, user_record, no_names}

partition_range_iff_example :
    (start_key 3 ≤ 216172782113783818 × (216172782113783818 ≤ end_key 3))
    ↔ ((decode_key no_names (to_decimal 216172782113783818)).prefix ≡ 3)
partition_range_iff_example = partition_range_iff no_names 216172782113783818 3 (omega arith)

user_range_iff_example :
    (user_base 3 5 ≤ 216172783455961098 × (216172783455961098 ≤ user_end 3 5)) ↔ (
      ((decode_key no_names (to_decimal 216172783455961098)).prefix ≡ 3)
      × ((decode_key no_names (to_decimal 216172783455961098)).user_hash ≡ 5))
user_range_iff_example = user_range_iff no_names 216172783455961098 3 5 (omega arith) (omega arith)

abbrev first_page : Page
first_page = record {
  records = record { key_text = units "17"; value = film_text } ∷ [];
  next_key_text = units "18";
  has_more = true;
}

abbrev last_page : Page
last_page = record {
  records = record { key_text = units "18"; value = units "a|b" } ∷ [];
  next_key_text = units "19";
  has_more = false;
}

-- The page opens; its records and then its counts arrive; two clicks read on, and a timer ticks.
abbrev morning : List Event
morning =
    arrive 0 0 (with_page first_page)
    ∷ arrive 0 1 (with_page first_page)
    ∷ click_more
    ∷ tick
    ∷ click_more
    ∷ arrive 0 2 (with_page last_page)
    ∷ arrive 0 3 (with_page last_page)
    ∷ []

more_once_example : count is_more (run engine morning opened).pending ≤ 1
more_once_example = more_once engine morning

settled : (run engine morning opened).pending ≡ []
unfolding run opened api
settled = refl

page_HasContent : (p : Page) (c : Call) → HasContent c (with_page p c)
unfolding api
page_HasContent p (partition url) = tt
page_HasContent p listing = λ e. cc
page_HasContent p counts = λ e. cc
page_HasContent p poll = λ e. cc
page_HasContent p (more url) = λ e. cc
page_HasContent p (write url) = tt

morning-AnswersHaveContent : All AnswersHaveContent morning
morning-AnswersHaveContent =
    let first = page_HasContent first_page in
    let last = page_HasContent last_page in (first, (first, (tt, (tt, (tt, (last, (last, tt)))))))

loading_ends_example :
    ((run engine morning opened).hook.loading ≡ false)
    × ((run engine morning opened).hook.loading_more ≡ false)
loading_ends_example = loading_ends engine morning settled morning-AnswersHaveContent

-- Partition 3 is open, with more to read.
abbrev reading : Session
reading = record {
  hook = record {
    stats = none;
    user = none;
    records = user_record ∷ [];
    loading = false;
    loading_more = false;
    error = none;
    stats_error = none;
    has_more = true;
    next_key = units "17";
    active_partition = some 3;
    updated_at = none;
  };
  registries = no_names;
  pending = [];
  sent = [];
  escaped = false;
}

abbrev crossed : List Event
crossed =
    open_partition 3
    ∷ open_partition 5
    ∷ arrive 1 0 (with_page last_page)
    ∷ arrive 0 0 (with_page first_page)
    ∷ []

records-late_example :
    ((run engine crossed reading).hook.records ≡ parse_page engine no_names first_page)
    × ((run engine crossed reading).hook.active_partition ≡ some 5)
records-late_example = records-late engine 3 5 first_page last_page reading refl

pending-refresh_example :
    (run engine
      (reload
        ∷ arrive 0 0 (with_page first_page)
        ∷ arrive 0 0 (with_page first_page)
        ∷ click_more
        ∷ [])
      reading).pending
    ≡ more (
        units "/api/records?start="
        ++ units "18"
        ++ units "&limit=100"
        ++ (units "&end=" ++ to_decimal (end_key 3)))
      ∷ []
pending-refresh_example = pending-refresh engine 3 first_page reading refl refl refl refl

-- The scan of partition 3 finds a record, that of 4 fails, and that of 5 finds none.
abbrev scans : ℕ → Option (List UniversalRecord)
scans p = if p == 3 then some (user_record ∷ []) else if p == 4 then none else some []

finish_load-IsCollected_example :
    IsCollected (3 ∷ 4 ∷ 5 ∷ []) scans (finish_load no_names (3 ∷ 4 ∷ 5 ∷ []) scans).collections
finish_load-IsCollected_example = finish_load-IsCollected no_names scans (3 ∷ 4 ∷ 5 ∷ [])
