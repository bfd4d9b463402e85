-- ===== src/Views/Operations.antt =====
-- studio/src/components/OperationsView.tsx: the checkpoint, the export, and what the view renders.
-- `pending` counts the checkpoints under way; none is a fetch that rejects.
pub mod Checkpoints
use mathlib.Core.Option
use beast_db.Prelude.{
  ℕ, zero, suc, ◌+◌, Bool, true, false, ◌||◌, Option, none, some, List, [], ◌∷◌, ◌++◌, or_else,
  if◌then◌else◌,
}
use beast_db.Js.Text.{Text, units, same}
use beast_db.Js.BigInt.{to_decimal}
use beast_db.Js.Fetch.{Request, is_ok}
use beast_db.Types.{SessionUser, UserRole, admin, viewer, TelemetryStats, StorageMetrics}
use beast_db.Display.{or_text}
use beast_db.Views.Html.{
  Html, Attr, click, disabled, nothing, say, ◌⊕◌, el, with_attrs, lit, prop, when, either,
}
use beast_db.Views.Formats.{Formats, format_bytes}

pub record Control : Type 0 where
  pub checkpointing : Bool
  pub pending : ℕ
  pub sent : List Request
  pub notices : List (Text × Bool)
  pub refreshes : ℕ
  pub opened : List Text

unfoldable pub handle_checkpoint : Control → Control
handle_checkpoint s = record s {
  checkpointing = true;
  pending = s.pending + 1;
  sent =
      s.sent ++ record { method = units "POST"; url = units "/api/checkpoint"; body = none } ∷ [];
}

is_done : Option ℕ → Bool
is_done none = false
is_done (some status) = is_ok status

unfoldable pub checkpoint_notice : Option ℕ → Text
unfolding is_done
checkpoint_notice reply =
    if is_done reply
    then units "Checkpoint completed: All dirty pages synced to disk."
    else units "Checkpoint triggered: In-memory frames synced to disk."

-- handleCheckpoint from its await on
unfoldable pub finish_checkpoint : Option ℕ → Control → Control
unfolding checkpoint_notice
finish_checkpoint reply s = record s {
  checkpointing = false;
  notices = s.notices ++ (checkpoint_notice reply, false) ∷ [];
  refreshes = s.refreshes + 1;
}

unfoldable pub handle_export : Control → Control
handle_export s = record s {
  opened = s.opened ++ units "/api/records?limit=500" ∷ [];
  notices = s.notices ++ (units "Export initiated.", false) ∷ [];
}

pub data Event : Type 0 where
  click_checkpoint click_export : Event
  settle : Option ℕ → Event

-- A checkpoint that is under way comes to its end.
settled : ℕ → Option ℕ → Control → Control
unfolding finish_checkpoint
settled zero reply s = s
settled (suc n) reply s = finish_checkpoint reply (record s { pending = n })

unfoldable pub handle : Event → Control → Control
unfolding handle_checkpoint handle_export settled
handle click_checkpoint s = handle_checkpoint s
handle click_export s = handle_export s
handle (settle reply) s = settled s.pending reply s

unfoldable pub run : List Event → Control → Control
unfolding handle
run [] s = s
run (e ∷ es) s = run es (handle e s)

pub data Action : Type 0 where
  export checkpoint : Action

-- stats?.role, where undefined is as the empty text
abbrev role_of : Option TelemetryStats → Text
role_of none = []
role_of (some t) = t.role

is_empty : Text → Bool
is_empty [] = true
is_empty (u ∷ s) = false

unfoldable pub is_leader : Option TelemetryStats → Bool
unfolding is_empty
is_leader stats =
    same (role_of stats) (units "leader")
    || is_empty (role_of stats)
    || same (role_of stats) (units "standalone")

-- stats?.storage?.field ?? d
abbrev pub storage_or : (StorageMetrics → ℕ) → ℕ → Option TelemetryStats → ℕ
storage_or field d none = d
storage_or field d (some t) = elim t.storage [ none ↦ d | some m ↦ field m ]

abbrev pub is_admin : Option SessionUser → Bool
is_admin none = false
is_admin (some u) = elim u.role [ admin ↦ true | viewer ↦ false ]

row : Text → Text → Html Action
row name value = el "div" (el "span" (say name) ⊕ el "span" (say value))

card : Text → Html Action → Html Action
card title body = el "Card" (el "CardHeader" (el "CardTitle" (say title)) ⊕ el "CardContent" body)

activity : Text → Text → Text → Html Action
activity name detail state =
    el "div" (el "div" (el "span" (say name) ⊕ el "span" (say detail)) ⊕ el "span" (say state))

head : Option SessionUser → Bool → Html Action
head user checkpointing = el "div" (
    el "div" (el "p" (lit "CLUSTER & STORAGE MANAGEMENT") ⊕ el "h1" (lit "Operations Control"))
    ⊕ el "div" (
        with_attrs "Button" (click (export ∷ []) ∷ []) (lit "Export Records")
        ⊕ when (is_admin user) (
            with_attrs "Button" (click (checkpoint ∷ []) ∷ disabled checkpointing ∷ [])
              (either checkpointing (lit "Flushing Pages…") (lit "Trigger Checkpoint")))))

unfoldable pub operations_view :
    Formats → Option TelemetryStats → Option SessionUser → Bool → Html Action
unfolding head card row activity is_leader format_bytes to_decimal
operations_view f stats user checkpointing =
    let lsn = or_else (Option.map (λ t. t.lsn) stats) 0 in
    let page = storage_or (λ m. m.active_data_page) 1 stats in
    let wal = storage_or (λ m. m.wal_size_bytes) 0 stats in
    let disk = storage_or (λ m. m.disk_size_bytes) 0 stats in
    let total = storage_or (λ m. m.total_pages) 0 stats in
    let dirty = storage_or (λ m. m.dirty_pages) 0 stats in
    let pool = storage_or (λ m. m.pool_size) 64 stats in
    el "section" (
      head user checkpointing
      ⊕ el "div" (
          card (units "Cluster Topology") (
            el "div" (
              el "span" (lit "Active Node Role")
              ⊕ el "Badge" (say (or_text (role_of stats) (units "Leader"))))
            ⊕ row (units "Replication Mode") (
                if is_leader stats
                then units "Primary (Accepts Writes)"
                else units "Replica (Read-Only)")
            ⊕ row (units "Current LSN") (to_decimal lsn))
          ⊕ card (units "WAL & Durability") (
              row (units "Log Protocol") (units "ARIES Physical-Logging")
              ⊕ row (units "WAL Log Size") (format_bytes f wal)
              ⊕ row (units "Active Data Page") (units "Page #" ++ to_decimal page))
          ⊕ card (units "Memory & Eviction") (
              row (units "Pool Policy") (units "Clock Hand Eviction")
              ⊕ row (units "Dirty Frames") (to_decimal dirty ++ units " of " ++ to_decimal pool)
              ⊕ row (units "Storage Disk Size")
                  (format_bytes f disk ++ units " (" ++ to_decimal total ++ units " pages)")))
      ⊕ card (units "Runtime Operations & Diagnostics") (
          el "div" (
            activity (units "Buffer Pool Synchronized") (units "clock-sweep intact")
              (units "Normal")
            ⊕ activity (units "B+ Tree Invariants Verified") (units "root Page #0") (units "Stable")
            ⊕ activity (units "WAL Append Stream Active") (units "zero torn writes detected")
                (units "Durable"))))
