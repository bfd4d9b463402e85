-- ===== src/Views/Overview.antt =====
-- studio/src/components/OverviewView.tsx: the numbers that it derives, and what it renders. The
-- chart of PartitionChart.tsx stands as an element with its data.
use mathlib.Core.Option
use beast_db.Prelude.{
  ℕ, ◌*◌, Bool, false, not, Option, none, some, List, [], ◌∷◌, ◌++◌, map, or_else, is_some, keep,
  length, ltb, ◌==◌, if◌then◌else◌,
}
use beast_db.Js.Text.{Text, units}
use beast_db.Js.BigInt.{to_decimal}
use beast_db.Types.{PartitionMeta, SessionUser, TelemetryStats}
use beast_db.Keys.Registry.{Registries, get_registered_partitions, hex_byte}
use beast_db.Display.{or_text}
use beast_db.Views.Html.{Html, click, nothing, say, ◌⊕◌, el, with_attrs, lit, prop, either, each}
use beast_db.Views.Formats.{Formats, format_bytes}
use beast_db.Views.Operations.{storage_or, is_admin}

pub record ChartItem : Type 0 where
  pub prefix : ℕ
  pub count : ℕ
  pub label : Text
  pub color : Text

-- list.find((p) => p.prefix === prefix)
find_registered : ℕ → List (ℕ × PartitionMeta) → Option PartitionMeta
find_registered p [] = none
find_registered p ((q, x) ∷ xs) = if q == p then some x else find_registered p xs

text_of : (PartitionMeta → Text) → Option PartitionMeta → Text → Text
text_of field none d = d
text_of field (some x) d = or_text (field x) d

chart_item : Registries → ℕ × ℕ → ChartItem
unfolding find_registered text_of get_registered_partitions hex_byte
chart_item s (prefix, count) =
    let registered = find_registered prefix (get_registered_partitions s) in
    record {
      prefix = prefix;
      count = count;
      label = text_of (λ x. x.label) registered (units "Partition 0x" ++ hex_byte prefix);
      color = text_of (λ x. x.color) registered (units "emerald");
    }

counts_of : Option TelemetryStats → List (ℕ × ℕ)
counts_of none = []
counts_of (some t) = or_else t.partition_counts []

unfoldable pub chart_data : Registries → Option TelemetryStats → List ChartItem
unfolding chart_item counts_of
chart_data s stats = keep (λ d. ltb 0 d.count) (map (chart_item s) (counts_of stats))

-- dirtyPages > poolSize * 0.8, with no rounding
abbrev is_dirty_heavy : ℕ → ℕ → Bool
is_dirty_heavy dirty pool = ltb (pool * 4) (dirty * 5)

unfoldable pub status_label : Option TelemetryStats → Text
status_label stats =
    if not (is_some stats)
    then units "Offline"
    else if is_dirty_heavy (storage_or (λ m. m.dirty_pages) 0 stats)
        (storage_or (λ m. m.pool_size) 64 stats)
    then units "High Dirty Load"
    else units "Optimal (Verified)"

pub data Action : Type 0 where
  retry analyze : Action

pub record Props : Type 0 where
  pub stats : Option TelemetryStats
  pub stats_error : Option Text
  pub records_error : Option Text
  pub user : Option SessionUser
  pub loaded : ℕ
  -- updatedAt.toLocaleTimeString()
  pub updated_at : Option Text

-- a || b, where null is as the empty text
abbrev or_none : Option Text → Option Text → Text
or_none a b = or_text (or_else a []) (or_else b [])

alert : Text → Html Action
alert [] = nothing
alert (u ∷ s) =
    with_attrs "div" (prop "role" (units "alert") ∷ [])
      (el "span" (say (u ∷ s)) ⊕ with_attrs "Button" (click (retry ∷ []) ∷ []) (lit "Retry"))

card : Text → Html Action → Text → Html Action
card name value detail = el "Card" (
    el "CardHeader" (el "span" (say name))
    ⊕ el "CardContent" (el "div" value ⊕ el "p" (say detail)))

row : Text → Html Action → Html Action
row name value = el "div" (el "span" (say name) ⊕ value)

has_storage : Option TelemetryStats → Bool
has_storage none = false
has_storage (some t) = is_some t.storage

text_or : (TelemetryStats → Text) → Text → Option TelemetryStats → Text
text_or field d none = d
text_or field d (some t) = or_text (field t) d

module _ (f : Formats) where
  metrics : Props → Html Action
  unfolding card status_label has_storage text_or format_bytes to_decimal
  metrics p =
      let number = λ (n : ℕ). to_decimal n in
      let dirty = number (storage_or (λ m. m.dirty_pages) 0 p.stats) in
      let pool = number (storage_or (λ m. m.pool_size) 64 p.stats) in
      let cached = number (storage_or (λ m. m.cached_pages) 0 p.stats) in
      let pinned = number (storage_or (λ m. m.pinned_pages) 0 p.stats) in
      let disk = storage_or (λ m. m.disk_size_bytes) 0 p.stats in
      let wal = storage_or (λ m. m.wal_size_bytes) 0 p.stats in
      let page = number (storage_or (λ m. m.active_data_page) 1 p.stats) in
      let stored = has_storage p.stats in
      el "div" (
        card (units "ENGINE STATE") (say (status_label p.stats)) (
          if stored
          then cached ++ units "/" ++ pool ++ units " frames cached"
          else units "B+ Tree 4KB · ARIES WAL")
        ⊕ card (units "BUFFER POOL")
            (say (if stored then cached ++ units " / " ++ pool else f.number_text p.loaded))
            (if stored
              then dirty ++ units " dirty · " ++ pinned ++ units " pinned"
              else units "Active memory frames")
        ⊕ card (units "STORAGE & WAL")
            (say
              (units "LSN " ++ or_else (Option.map (λ t. f.number_text t.lsn) p.stats) (units "—")))
            (if stored
              then format_bytes f disk ++ units " disk · " ++ format_bytes f wal ++ units " WAL"
              else units "Log sequence number")
        ⊕ card (units "NODE TOPOLOGY")
            (el "Badge" (say (text_or (λ t. t.role) (units "Standalone") p.stats)))
            (units "v"
              ++ text_or (λ t. t.version) (units "1.0.0") p.stats
              ++ units " · Active Pg: #"
              ++ page))

chart : List ChartItem → Html Action
unfolding to_decimal
chart [] = nothing
chart (d ∷ ds) = el "Card" (
    el "CardHeader" (
      el "div" (
        el "CardTitle" (lit "Keyspace Distribution by Partition")
        ⊕ el "Badge" (say (to_decimal (length (d ∷ ds)) ++ units " Partitions Registered"))))
    ⊕ el "CardContent" (el "PartitionChart" (each (λ x. el "DataItem" (say x.label)) (d ∷ ds))))

parameters : Option Text → Html Action
unfolding row
parameters updated_at = el "Card" (
    el "CardHeader" (el "CardTitle" (lit "Engine Runtime Parameters"))
    ⊕ el "CardContent" (
        row (units "Storage Hierarchy") (el "span" (lit "4KB Slotted Pages / Slotted Array"))
        ⊕ row (units "Durability Model") (el "span" (lit "ARIES WAL + Append-Only tombstones"))
        ⊕ row (units "Index Structure") (el "span" (lit "On-Disk B+ Tree (Fanout ~200)"))
        ⊕ row (units "Last Telemetry Sync") (el "span" (say (or_else updated_at (units "—"))))))

privileges : Option SessionUser → Html Action
unfolding row
privileges user =
    let name = or_else (Option.map (λ u. u.username) user) [] in
    el "Card" (
      el "CardHeader" (el "CardTitle" (lit "Current Session Privileges"))
      ⊕ el "CardContent" (
          row (units "Authenticated Subject") (el "span" (say (or_text name (units "Anonymous"))))
          ⊕ row (units "Authorization Scope")
              (el "Badge" (either (is_admin user) (lit "admin") (lit "viewer")))
          ⊕ row (units "Write Operations") (
              el "span"
                (either (is_admin user) (lit "Enabled (Full I/O)") (lit "Disabled (Read-Only)")))
          ⊕ row (units "Session Mode") (el "span" (lit "HMAC-Signed Cookie"))))

unfoldable pub overview_view : Formats → Registries → Props → Html Action
unfolding alert metrics chart chart_data parameters privileges
overview_view f s p = el "section" (
    el "div" (
      el "div" (el "p" (lit "TELEMETRY & MEASURED VITALS") ⊕ el "h1" (lit "System Overview"))
      ⊕ with_attrs "Button" (click (analyze ∷ []) ∷ []) (lit "Key Analyzer"))
    ⊕ alert (or_none p.stats_error p.records_error)
    ⊕ metrics f p
    ⊕ chart (chart_data s p.stats)
    ⊕ el "div" (parameters p.updated_at ⊕ privileges p.user))
