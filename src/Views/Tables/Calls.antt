-- ===== src/Views/Tables/Calls.antt =====
-- The calls of the table and of the grid.
use beast_db.Prelude.{ℕ, ◌≡◌, refl, Bool, true, some, List, [], ◌∷◌, all, arith}
use beast_db.Types.{UniversalRecord}
use beast_db.Paging.{paginated, table_page_size, grid_page_size}
use beast_db.Views.Html.{every}
use beast_db.Views.Html.Laws.{every-each}
use beast_db.Views.Pages.Calls.{every-pages}
use beast_db.Views.Cells.{table_row, card}
use beast_db.Views.Cells.Calls.{every-table_row, every-card}
use beast_db.Views.Tables.{
  TableProps, no_match, bar_props, bar_of, heading, table_of, record_table_view, grid_of,
  record_grid_view,
}

module _ {E : Type 0} (p : E → Bool) (d : TableProps E) (load : List E)
    (given : d.on_load_more ≡ some load) (loads : all p load ≡ true)
    (selects : (r : UniversalRecord) → all p (d.on_select r) ≡ true)
    (turns : (n : ℕ) → all p (d.set_page n) ≡ true) where
  every-bar_of : (size : ℕ) → every p (bar_of d size) ≡ true
  unfolding bar_of bar_props
  every-bar_of size = every-pages p (bar_props d size) turns load given loads

  every-table_of : (rs : List UniversalRecord) → every p (table_of d rs) ≡ true
  unfolding table_of no_match heading
  every-table_of [] = refl
  every-table_of (r ∷ rs) = ground (
    arith,
    every-bar_of table_page_size,
    every-each p (table_row d.on_select) (paginated d.page table_page_size (r ∷ rs))
        (every-table_row p d.on_select selects),
  )

  pub every-record_table_view : every p (record_table_view d) ≡ true
  unfolding record_table_view
  every-record_table_view = every-table_of d.records

  every-grid_of : (rs : List UniversalRecord) → every p (grid_of d rs) ≡ true
  unfolding grid_of no_match
  every-grid_of [] = refl
  every-grid_of (r ∷ rs) = ground (
    arith,
    every-bar_of grid_page_size,
    every-each p (card d.on_select) (paginated d.page grid_page_size (r ∷ rs))
        (every-card p d.on_select selects),
  )

  pub every-record_grid_view : every p (record_grid_view d) ≡ true
  unfolding record_grid_view
  every-record_grid_view = every-grid_of d.records
