-- ===== src/Views/Content.antt =====
-- studio/src/components/ExplorerContent.tsx: the three panes of the explorer. The states of its
-- children, the page of a table and the hook of a user's panel, are among the props; the panes that
-- a narrow window hides are all there.
pub mod Calls
use beast_db.Prelude.{
  ℕ, Bool, true, false, not, ◌&&◌, ◌||◌, Option, none, some, List, [], ◌∷◌, ◌++◌, length, is_some,
  if◌then◌else◌,
}
use mathlib.Core.Option
use beast_db.Js.Text.{Text, units}
use beast_db.Js.Case.{CaseMap}
use beast_db.Js.Platform.{Platform}
use beast_db.Types.{UniversalRecord, ViewMode, split, table, grid}
use beast_db.Partitions.{Partition, Tally}
use beast_db.Hooks.UserContext.{Context}
use beast_db.Explorer.{Pane, partitions, documents, details}
use beast_db.Views.Html.{
  Html, Attr, click, nothing, say, ◌⊕◌, el, with_attrs, lit, prop, when, when_some, either,
}
use beast_db.Views.Formats.{Formats}
use beast_db.Views.Details.{DetailsProps, record_details}
use beast_db.Views.Rail.{RailProps, ListProps, partition_rail, document_list}
use beast_db.Views.Tables.{TableProps, record_table_view, record_grid_view}

pub record ContentProps (E : Type 0) : Type 0 where
  pub view_mode : ViewMode
  pub records : List UniversalRecord
  pub selected : Option UniversalRecord
  pub loading : Bool
  pub loading_more : Bool
  pub has_more : Bool
  pub partition_title : Text
  pub can_write : Bool
  pub partition_list : List Partition
  pub partition : Text
  pub total_count : ℕ
  pub partition_counts : Tally
  pub on_select : Option UniversalRecord → List E
  pub on_set_pane : Pane → List E
  pub on_load_more : List E
  pub on_new : List E
  pub on_choose_partition : Text → List E
  pub on_delete : Text → List E
  pub on_delete_user : Option (ℕ → List E)
  pub on_edit : Option (UniversalRecord → List E)
  pub copy : Text → Text → List E
  pub copy_bits : Text → List E
  pub page : ℕ
  pub set_page : ℕ → List E
  pub context : Context

is_split : ViewMode → Bool
is_split split = true
is_split table = false
is_split grid = false

module _ {E : Type 0} where
  -- (r) => { p.onSelect(r); p.onSetPane("details"); }
  abbrev open_record : ContentProps E → UniversalRecord → List E
  open_record p r = p.on_select (some r) ++ p.on_set_pane details

  table_props : ContentProps E → TableProps E
  table_props p = record {
    records = p.records;
    has_more = p.has_more;
    loading_more = p.loading_more;
    on_load_more = some p.on_load_more;
    on_select = open_record p;
    page = p.page;
    set_page = p.set_page;
  }

  rail_props : ContentProps E → RailProps E
  rail_props p = record {
    partitions = p.partition_list;
    selected = p.partition;
    total = p.total_count;
    has_more = p.has_more;
    has_full_counts = is_some p.partition_counts;
    on_select = p.on_choose_partition;
  }

  list_props : ContentProps E → ListProps E
  list_props p = record {
    records = p.records;
    selected = p.selected;
    loading = p.loading;
    loading_more = p.loading_more;
    has_more = p.has_more;
    title = p.partition_title;
    shown_count = length p.records;
    on_load_more = p.on_load_more;
    on_select = open_record p;
    on_back = p.on_set_pane partitions;
    can_write = p.can_write;
    on_new = p.on_new;
  }

module _ {E : Type 0} ⦃c : CaseMap⦄ where
  main_area : ViewMode → ContentProps E → Html E
  unfolding document_list list_props record_table_view record_grid_view table_props
  main_area split p = document_list (list_props p)
  main_area table p = record_table_view (table_props p)
  main_area grid p = record_grid_view (table_props p)

  close_button : ContentProps E → Html E
  close_button p = el "div" (
      with_attrs "Button"
        (click (p.on_select none) ∷ prop "aria-label" (units "Close details") ∷ []) nothing)

module _ {E : Type 0} ⦃c : CaseMap⦄ (js : Platform) (f : Formats) where
  details_props : ContentProps E → UniversalRecord → DetailsProps E
  details_props p r = record {
    shown = r;
    can_write = p.can_write;
    on_delete = p.on_delete;
    on_delete_user = p.on_delete_user;
    on_edit = Option.map (λ edit. edit r) p.on_edit;
    on_select = some (open_record p);
    copy = p.copy;
    copy_bits = p.copy_bits;
    context = p.context;
  }

  selected_details : ContentProps E → UniversalRecord → Html E
  unfolding record_details details_props
  selected_details p r = record_details js f (details_props p r)

  details_panel : ContentProps E → Html E
  unfolding is_split close_button selected_details
  details_panel p = elim p.selected [
    | none ↦ when (is_split p.view_mode) (
        el "div" (
          el "div" (
            el "div" nothing
            ⊕ el "h2" (lit "Select a record")
            ⊕ el "p" (lit "Choose a record to inspect its fields and storage details."))))
    | some r ↦ el "div" (when (not (is_split p.view_mode)) (close_button p) ⊕ selected_details p r)
  ]

  unfoldable pub explorer_content : ContentProps E → Html E
  unfolding partition_rail rail_props main_area details_panel
  explorer_content p = el "div" (
      el "div" (partition_rail (rail_props p))
      ⊕ el "div" (main_area p.view_mode p)
      ⊕ details_panel p)
