-- ===== src/Hooks/Data/Events.antt =====
-- useStudioData.ts, what its functions do with the answers, and the events of a session.
pub mod Tracks
pub mod Escapes
pub mod Loading
pub mod Pages
pub mod Reading
use mathlib.Core.Option
use beast_db.Prelude.{
  ℕ, Bool, true, false, Option, none, some, List, [], ◌∷◌, ◌++◌, map, or_else, is_some, take_out,
  if◌then◌else◌,
}
use beast_db.Js.Text.{Text, units}
use beast_db.Js.Case.{CaseMap}
use beast_db.Js.Platform.{Platform}
use beast_db.Types.{UniversalRecord, TelemetryStats, SessionUser, PartitionConfig}
use beast_db.Keys.Registry.{Registries, set_partition_registry}
use beast_db.Payload.Parse.{parse_universal_record}
use beast_db.Hooks.Api.{Result, failed, done, Reply, api}
use beast_db.Hooks.Data.{
  RawRecord, Page, Studio, Call, partition, listing, counts, poll, more, write, Session, on_hook,
  load_partition, refresh, fetch_stats, load_more, post_key, remove, remove_user,
}

-- The replies that a call waits for.
pub record Listing : Type 0 where
  pub page : Reply Page
  pub me : Reply SessionUser
  pub partitions : Reply (List PartitionConfig)

abbrev pub ReplyOf : Call → Type 0
ReplyOf (partition url) = Reply Page
ReplyOf listing = Listing
ReplyOf counts = Reply TelemetryStats
ReplyOf poll = Reply TelemetryStats
ReplyOf (more url) = Reply Page
ReplyOf (write url) = Reply (Unit {0})

-- `arrive` answers the call at a position of the list, at a time.
pub data Event : Type 0 where
  open_partition : ℕ → Event
  reload : Event
  tick : Event
  click_more : Event
  post : Text → Text → Bool → Event
  delete : Text → Event
  delete_user : ℕ → Event
  arrive : ℕ → ℕ → ((c : Call) → ReplyOf c) → Event

stop_loading : Studio → Studio
stop_loading h = record h { loading = false }

stop_more : Studio → Studio
stop_more h = record h { loading_more = false }

set_error : Text → Studio → Studio
set_error m h = record h { error = some m }

-- setStats of an answer: counts that it has not are kept.
merge_stats : TelemetryStats → Studio → Studio
merge_stats t h =
    let before : Option (List (ℕ × ℕ)) = elim h.stats [
      | none ↦ none
      | some p ↦ p.partition_counts
    ] in
    record h {
      stats =
          some (if is_some t.partition_counts then t else record t { partition_counts = before });
      stats_error = none;
    }

-- The rest of fetchStats.
pub got_stats : Result (Option TelemetryStats) → Session → Session
unfolding merge_stats
got_stats (failed m) s = on_hook (λ h. record h { stats = none; stats_error = some m }) s
got_stats (done none) s = record s { hook = record (s.hook) { stats_error = none }; escaped = true }
got_stats (done (some t)) s = on_hook (merge_stats t) s

pub got_user : Result (Option SessionUser) → Studio → Studio
got_user (failed m) h = record h { user = none; error = some m }
got_user (done u) h = record h { user = u }

-- `undefined` clears the registry.
pub got_partitions : Result (Option (List PartitionConfig)) → Registries → Registries
got_partitions (failed m) r = r
got_partitions (done none) r = set_partition_registry [] r
got_partitions (done (some entries)) r = set_partition_registry entries r

-- A write that is refused throws to its caller.
pub got_write : Result (Option (Unit {0})) → Session → Session
unfolding refresh
got_write (failed m) s = s
got_write (done u) s = refresh s

module _ ⦃c : CaseMap⦄ (js : Platform) where
  pub parse_page : Registries → Page → List UniversalRecord
  parse_page r page =
      map (λ raw. parse_universal_record js r raw.key_text (some raw.value)) page.records

  set_page : ℕ → Registries → Page → Studio → Studio
  unfolding parse_page
  set_page now r page h = record h {
    records = parse_page r page;
    has_more = page.has_more;
    next_key = page.next_key_text;
    updated_at = some now;
  }

  -- loadPartition, from its await on; `undefined` has no records, which is caught too.
  got_partition_page : ℕ → Result (Option Page) → Session → Session
  unfolding set_page set_error stop_loading
  got_partition_page now (failed m) s = on_hook (λ h. stop_loading (set_error m h)) s
  got_partition_page now (done none) s =
      on_hook (λ h. stop_loading (set_error (js.no_property (units "records")) h)) s
  got_partition_page now (done (some page)) s =
      on_hook (λ h. stop_loading (set_page now s.registries page h)) s

  -- refresh, from its first await on to its second. Where the page is `undefined` the function
  -- ends with a TypeError.
  got_page : ℕ → Result (Option Page) → Result (Option SessionUser) → Session → Session
  unfolding set_page set_error got_user fetch_stats
  got_page now (failed m) me s =
      fetch_stats counts true (on_hook (λ h. got_user me (set_error m h)) s)
  got_page now (done none) me s = record s { escaped = true }
  got_page now (done (some page)) me s =
      fetch_stats counts true (on_hook (λ h. got_user me (set_page now s.registries page h)) s)

  got_listing : ℕ → Listing → Session → Session
  unfolding got_page got_partitions api
  got_listing now l s =
      let configs = api (units "/api/partitions") l.partitions in
      got_page now (api (units "/api/records?limit=100") l.page) (api (units "/api/me") l.me)
        (record s { registries = got_partitions configs s.registries })

  -- loadMore, from its await on. Of `undefined` the records are read when the page renders, which
  -- fails past the hook, and hasMore at once, which is caught.
  got_more : Result (Option Page) → Session → Session
  unfolding set_error stop_more parse_page
  got_more (failed m) s = on_hook (λ h. stop_more (set_error m h)) s
  got_more (done none) s = record s {
    hook = stop_more (set_error (js.no_property (units "hasMore")) s.hook);
    escaped = true;
  }
  got_more (done (some page)) s =
      on_hook
        (λ h. record h {
          records = h.records ++ parse_page s.registries page;
          has_more = page.has_more;
          next_key = page.next_key_text;
          loading_more = false;
        })
        s

  unfoldable pub finish : ℕ → (c : Call) → ReplyOf c → Session → Session
  unfolding got_partition_page got_listing got_stats got_more got_write stop_loading api
  finish now (partition url) r s = got_partition_page now (api url r) s
  finish now listing r s = got_listing now r s
  finish now counts r s =
      on_hook stop_loading (got_stats (api (units "/api/stats?counts=true") r) s)
  finish now poll r s = got_stats (api (units "/api/stats") r) s
  finish now (more url) r s = got_more (api url r) s
  finish now (write url) r s = got_write (api url r) s

  arrival : ℕ → ((c : Call) → ReplyOf c) → Option (Call × List Call) → Session → Session
  arrival now answer none s = s
  arrival now answer (some (c, cs)) s = finish now c (answer c) (record s { pending = cs })

  unfoldable pub handle : Event → Session → Session
  unfolding take_out arrival finish load_partition refresh fetch_stats load_more post_key remove
      remove_user
  handle (open_partition prefix) s = load_partition prefix s
  handle reload s = refresh s
  handle tick s = fetch_stats poll false s
  handle click_more s = load_more s
  handle (post key value create_only) s = post_key key value create_only s
  handle (delete key) s = remove key s
  handle (delete_user user_hash) s = remove_user user_hash s
  handle (arrive i now answer) s = arrival now answer (take_out s.pending i) s

  unfoldable pub run : List Event → Session → Session
  unfolding handle
  run [] s = s
  run (e ∷ es) s = run es (handle e s)

-- The hook when the page opens, with its first refresh under way.
abbrev new_hook : Studio
new_hook = record {
  stats = none;
  user = none;
  records = [];
  loading = true;
  loading_more = false;
  error = none;
  stats_error = none;
  has_more = false;
  next_key = units "0";
  active_partition = none;
  updated_at = none;
}

unfoldable pub opened : Session
unfolding refresh
opened = refresh (record {
  hook = new_hook;
  registries = record { prefix_registry = []; inferred_registry = [] };
  pending = [];
  sent = [];
  escaped = false;
})
