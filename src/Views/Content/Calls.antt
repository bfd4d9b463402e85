-- ===== src/Views/Content/Calls.antt =====
-- The calls of the panes of the explorer.
use beast_db.Prelude.{ℕ, ◌≡◌, refl, ◌∙◌, Bool, true, false, not, Option, none, some, all, arith}
use beast_db.Js.Text.{Text}
use beast_db.Js.Case.{CaseMap}
use beast_db.Js.Platform.{Platform}
use beast_db.Types.{UniversalRecord, ViewMode, split, table, grid}
use beast_db.Explorer.{Pane, partitions, details}
use beast_db.Views.Html.{nothing, ◌⊕◌, el, lit, when, every}
use beast_db.Views.Html.Laws.{all-append}
use beast_db.Views.Formats.{Formats}
use beast_db.Views.Details.Calls.{every-record_details}
use beast_db.Views.Rail.Calls.{every-partition_rail, every-document_list}
use beast_db.Views.Tables.Calls.{every-record_table_view, every-record_grid_view}
use beast_db.Views.Content.{
  ContentProps, is_split, open_record, table_props, rail_props, list_props, main_area, close_button,
  details_props, selected_details, details_panel, explorer_content,
}

module _ {E : Type 0} ⦃c : CaseMap⦄ (p : E → Bool) (d : ContentProps E)
    (selects : (o : Option UniversalRecord) → all p (d.on_select o) ≡ true)
    (panes : (x : Pane) → all p (d.on_set_pane x) ≡ true) (loads : all p d.on_load_more ≡ true)
    (chooses : (t : Text) → all p (d.on_choose_partition t) ≡ true)
    (copies : (t l : Text) → all p (d.copy t l) ≡ true)
    (copies_bits : (t : Text) → all p (d.copy_bits t) ≡ true)
    (turns : (n : ℕ) → all p (d.set_page n) ≡ true) (reads : d.can_write ≡ false) where
  all-open_record : (r : UniversalRecord) → all p (open_record d r) ≡ true
  all-open_record r =
      all-append p (d.on_select (some r)) (d.on_set_pane details)
      ∙ ground (arith, selects (some r), panes details)

  every-main_area : (m : ViewMode) → every p (main_area m d) ≡ true
  unfolding main_area list_props table_props
  every-main_area split =
      every-document_list p (list_props d) loads all-open_record (panes partitions) reads
  every-main_area table =
      every-record_table_view p (table_props d) d.on_load_more refl loads all-open_record turns
  every-main_area grid =
      every-record_grid_view p (table_props d) d.on_load_more refl loads all-open_record turns

  module _ (js : Platform) (f : Formats) where
    every-selected_details : (r : UniversalRecord) → every p (selected_details js f d r) ≡ true
    unfolding selected_details details_props
    every-selected_details r =
        every-record_details p js f (details_props js f d r) copies copies_bits all-open_record
          reads

    every-panel_of :
        (o : Option UniversalRecord)
        → every p (elim o [
          | none ↦ when (is_split d.view_mode) (
              el "div" (
                el "div" (
                  el "div" nothing
                  ⊕ el "h2" (lit "Select a record")
                  ⊕ el "p" (lit "Choose a record to inspect its fields and storage details."))))
          | some r ↦
              el "div"
                (when (not (is_split d.view_mode)) (close_button d) ⊕ selected_details js f d r)
        ])
          ≡ true
    unfolding close_button
    every-panel_of none = ground arith
    every-panel_of (some r) = ground (arith, selects none, every-selected_details r)

    pub every-explorer_content : every p (explorer_content js f d) ≡ true
    unfolding explorer_content details_panel rail_props
    every-explorer_content = ground (
      arith,
      every-partition_rail p (rail_props d) chooses,
      every-main_area d.view_mode,
      every-panel_of d.selected,
    )
