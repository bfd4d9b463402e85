-- ===== src/Views/Page.antt =====
-- studio/src/components/RecordsView.tsx: the title and the totals of the explorer, and what it
-- renders. The variables of the component are those of Explorer.View, and the two modes.
pub mod Writes
pub mod Searches
use beast_db.Prelude.{
  ℕ, ◌+◌, Bool, true, false, ◌&&◌, Option, none, some, List, [], ◌∷◌, ◌++◌, length, first, ◌==◌,
  if◌then◌else◌,
}
use mathlib.Core.Option
use beast_db.Js.Text.{Text, units, same}
use beast_db.Js.Case.{CaseMap}
use beast_db.Js.Radix.{parse_radix}
use beast_db.Js.BigInt.{to_decimal}
use beast_db.Js.Platform.{Platform}
use beast_db.Keys.Registry.{generic_prefix, hex_byte}
use beast_db.Types.{UniversalRecord, ViewMode}
use beast_db.Partitions.{Partition, Tally}
use beast_db.Hooks.UserContext.{Context}
use beast_db.Explorer.{
  Pane, SearchMeta, View, partitions, active_records, filtered_records, clear_search,
}
use beast_db.Display.{or_text}
use beast_db.Views.Html.{
  Html, Attr, click, nothing, say, ◌⊕◌, el, with_attrs, lit, prop, when, when_some, when_text,
  either,
}
use beast_db.Views.Formats.{Formats}
use beast_db.Views.Rail.{breadcrumb}
use beast_db.Views.SearchBar.{SearchMode, Bar, BarProps, global_search_bar}
use beast_db.Views.Banner.{BannerProps, search_coverage_banner}
use beast_db.Views.Toolbar.{ToolbarProps, records_toolbar}
use beast_db.Views.Content.{ContentProps, explorer_content}

-- What the elements of the page can do: the functions of the props of the component, its handlers,
-- and the setters of its variables and of those of its children.
pub data Action : Type 0 where
  retry load_more new_record continue_scan clear : Action
  select : Option UniversalRecord → Action
  delete : Text → Action
  delete_user : ℕ → Action
  edit : UniversalRecord → Action
  set_pane : Pane → Action
  choose_partition : Text → Action
  set_search_mode : SearchMode → Action
  set_view_mode : ViewMode → Action
  set_status_filter : Text → Action
  search_text : Text → Option ℕ → Action
  lookup_key : Text → Action
  scan_range : Text → Text → Action
  set_bar : Bar → Action
  set_page : ℕ → Action
  copy : Text → Text → Action
  copy_bits : Text → Action

-- The props, and the variables that are not in Explorer.View.
pub record Props : Type 0 where
  pub records : List UniversalRecord
  pub loading : Bool
  pub loading_more : Bool
  pub has_more : Bool
  pub can_write : Bool
  pub error : Option Text
  pub partition_counts : Tally
  pub partition_list : List Partition
  pub search_mode : SearchMode
  pub view_mode : ViewMode
  pub bar : Bar
  pub page : ℕ
  pub context : Context

sum_counts : List (ℕ × ℕ) → ℕ
sum_counts [] = 0
sum_counts ((p, n) ∷ counts) = n + sum_counts counts

unfoldable pub total_count : Props → ℕ
unfolding sum_counts
total_count p = elim p.partition_counts [
  | none ↦ length p.records
  | some counts ↦ sum_counts counts
]

label_of : (ℕ → Bool) → List Partition → Option Text
label_of is_it [] = none
label_of is_it (x ∷ xs) =
    let rest = label_of is_it xs in if is_it x.prefix then some x.label else rest

or_missing : Option Text → Text → Text
or_missing none d = d
or_missing (some s) d = or_text s d

-- `Number(partition)` is the prefix whose numeral is chosen.
unfoldable pub partition_title : Text → List Partition → Text
unfolding label_of or_missing to_decimal parse_radix hex_byte
partition_title partition list =
    or_missing (label_of (λ prefix. same (to_decimal prefix) partition) list) (
      generic_prefix
      ++ elim (parse_radix 10 partition) [ none ↦ units "NaN" | some n ↦ hex_byte n ])

same_prefix : Option ℕ → ℕ → Bool
same_prefix none prefix = false
same_prefix (some q) prefix = prefix == q

alert : Option Text → Html Action
alert none = nothing
alert (some []) = nothing
alert (some (u ∷ s)) =
    with_attrs "div" (prop "role" (units "alert") ∷ [])
      (el "span" (say (u ∷ s)) ⊕ with_attrs "Button" (click (retry ∷ []) ∷ []) (lit "Retry"))

bar_props : Props → View → BarProps Action
bar_props p v = record {
  mode = p.search_mode;
  partitions = p.partition_list;
  busy = v.busy;
  on_mode_change = λ mode. set_search_mode mode ∷ [];
  on_search_text = λ query prefix. search_text query prefix ∷ [];
  on_lookup_key = λ key. lookup_key key ∷ [];
  on_scan_range = λ start_key end_key. scan_range start_key end_key ∷ [];
  state = p.bar;
  set_state = λ bar. set_bar bar ∷ [];
}

banner_props : Props → View → SearchMeta → BannerProps Action
unfolding same_prefix label_of
banner_props p v m = record {
  query = m.query;
  count = m.found.count;
  scanned_count = m.found.scanned_count;
  has_more = m.found.has_more;
  prefix = m.found.prefix;
  prefix_label = label_of (same_prefix m.found.prefix) p.partition_list;
  loading_more = v.busy;
  on_continue_scan = some (continue_scan ∷ []);
  on_clear = clear ∷ [];
}

toolbar_props : Props → View → ToolbarProps Action
unfolding active_records
toolbar_props p v = record {
  records = active_records p.records v;
  active_status = v.status_filter;
  on_select_status = λ status. set_status_filter status ∷ [];
  on_view_mode_change = λ mode. set_view_mode mode ∷ [];
  can_write = p.can_write;
  on_new = new_record ∷ [];
}

content_props : ⦃c : CaseMap⦄ → Props → View → ContentProps Action
unfolding filtered_records partition_title total_count
content_props p v = record {
  view_mode = p.view_mode;
  records = filtered_records p.records v;
  selected = v.selected;
  loading = p.loading;
  loading_more = p.loading_more;
  has_more = p.has_more;
  partition_title =
      if v.is_search_mode
      then units "Search Results"
      else partition_title v.partition p.partition_list;
  can_write = p.can_write;
  partition_list = p.partition_list;
  partition = v.partition;
  total_count = total_count p;
  partition_counts = p.partition_counts;
  on_select = λ r. select r ∷ [];
  on_set_pane = λ pane. set_pane pane ∷ [];
  on_load_more = load_more ∷ [];
  on_new = new_record ∷ [];
  on_choose_partition = λ partition. choose_partition partition ∷ [];
  on_delete = λ key. delete key ∷ [];
  on_delete_user = some (λ user_hash. delete_user user_hash ∷ []);
  on_edit = some (λ r. edit r ∷ []);
  copy = λ text label. copy text label ∷ [];
  copy_bits = λ bits. copy_bits bits ∷ [];
  page = p.page;
  set_page = λ page. set_page page ∷ [];
  context = p.context;
}

banner : Formats → Props → View → Option SearchMeta → Html Action
unfolding search_coverage_banner banner_props
banner f p v found =
    when v.is_search_mode (when_some found (λ m. search_coverage_banner f (banner_props p v m)))

module _ ⦃c : CaseMap⦄ (js : Platform) (f : Formats) where
  unfoldable pub records_view : Props → View → Html Action
  unfolding global_search_bar bar_props banner alert records_toolbar toolbar_props explorer_content
      content_props breadcrumb partition_title
  records_view p v =
      let title = partition_title v.partition p.partition_list in
      let record_label : Text = elim v.selected [ none ↦ [] | some r ↦ r.primary_label ] in
      el "section" (
        el "div" (
          el "div"
            (breadcrumb title record_label (set_pane partitions ∷ []) ⊕ el "h1" (lit "Explorer")))
        ⊕ global_search_bar (bar_props p v)
        ⊕ banner f p v v.search_meta
        ⊕ alert p.error
        ⊕ records_toolbar (toolbar_props p v)
        ⊕ explorer_content js f (content_props p v))
