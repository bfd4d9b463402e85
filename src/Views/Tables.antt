-- ===== src/Views/Tables.antt =====
-- studio/src/components: RecordTableView.tsx and RecordGridView.tsx. The page is their state, and
-- setPage is among the calls.
pub mod Calls
pub mod Throws
use beast_db.Prelude.{ℕ, Bool, Option, none, some, List, [], ◌∷◌, length}
use beast_db.Js.Text.{Text, units}
use beast_db.Types.{UniversalRecord}
use beast_db.Paging.{paginated, table_page_size, grid_page_size}
use beast_db.Views.Html.{Html, nothing, say, ◌⊕◌, el, lit, each}
use beast_db.Views.Pages.{PagesProps, pages}
use beast_db.Views.Cells.{table_row, card}

pub record TableProps (E : Type 0) : Type 0 where
  pub records : List UniversalRecord
  pub has_more : Bool
  pub loading_more : Bool
  pub on_load_more : Option (List E)
  pub on_select : UniversalRecord → List E
  pub page : ℕ
  pub set_page : ℕ → List E

module _ {E : Type 0} where
  no_match : Html E
  no_match = el "div" (
      el "p" (lit "No records match filter") ⊕ el "p" (lit "Select another filter or add records."))

  bar_props : TableProps E → ℕ → PagesProps E
  bar_props p page_size = record {
    page = p.page;
    page_size = page_size;
    total_shown = length p.records;
    has_more = p.has_more;
    loading_more = p.loading_more;
    on_page_change = p.set_page;
    on_load_more = p.on_load_more;
  }

  bar_of : TableProps E → ℕ → Html E
  unfolding pages bar_props
  bar_of p page_size = pages (bar_props p page_size)

  heading : Html E
  heading = el "thead" (
      el "tr" (
        el "th" (lit "Cover")
        ⊕ el "th" (lit "Title / Identity")
        ⊕ el "th" (lit "Status")
        ⊕ el "th" (lit "Rating")
        ⊕ el "th" (lit "Attributes")
        ⊕ el "th" (lit "Key")))

  table_of : TableProps E → List UniversalRecord → Html E
  unfolding no_match bar_of heading table_row paginated
  table_of p [] = no_match
  table_of p (r ∷ rs) = el "div" (
      el "div" (
        el "table" (
          heading
          ⊕ el "tbody" (each (table_row p.on_select) (paginated p.page table_page_size (r ∷ rs)))))
      ⊕ bar_of p table_page_size)

  unfoldable pub record_table_view : TableProps E → Html E
  unfolding table_of
  record_table_view p = table_of p p.records

  grid_of : TableProps E → List UniversalRecord → Html E
  unfolding no_match bar_of card paginated
  grid_of p [] = no_match
  grid_of p (r ∷ rs) = el "div" (
      el "div" (el "div" (each (card p.on_select) (paginated p.page grid_page_size (r ∷ rs))))
      ⊕ bar_of p grid_page_size)

  unfoldable pub record_grid_view : TableProps E → Html E
  unfolding grid_of
  record_grid_view p = grid_of p p.records
