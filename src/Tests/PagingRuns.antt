-- ===== src/Tests/PagingRuns.antt =====
-- Runs of the pages of a table.
use beast_db.Prelude.{ℕ, ◌<◌, ◌≤◌, ◌≡◌, false, List, [], length, replicate, arith}
use beast_db.Paging.{table_page_size, pagination_bar, paginated}
use beast_db.Paging.Shown.{between, paginated-eq-between, paginated-past}

abbrev rows : List ℕ
rows = replicate 60 7

last_page : 3 ≤ (pagination_bar 3 table_page_size (length rows) false).total_pages
unfolding pagination_bar
last_page = omega arith

paginated-eq-between_example :
    paginated 3 table_page_size rows
    ≡ between
        (pagination_bar 3 table_page_size (length rows) false).start_idx
        (pagination_bar 3 table_page_size (length rows) false).end_idx
        rows
paginated-eq-between_example = paginated-eq-between table_page_size 3 rows (omega arith) last_page

past_page : (pagination_bar 5 table_page_size (length rows) false).total_pages < 5
unfolding pagination_bar
past_page = omega arith

paginated-past_example :
    (paginated 5 table_page_size rows ≡ [])
    × ((pagination_bar 5 table_page_size (length rows) false).end_idx ≡ length rows)
paginated-past_example = paginated-past rows 5 past_page
