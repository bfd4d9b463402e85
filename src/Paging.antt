-- ===== src/Paging.antt =====
-- studio/src/components/PaginationBar.tsx, and the pages of RecordTableView.tsx and
-- RecordGridView.tsx: the bar is given the page that the view is on, and how many records it has.
pub mod Shown
use beast_db.Prelude.{
  ℕ, ◌+◌, ◌-◌, ◌*◌, ◌/◌, Bool, false, ◌&&◌, List, drop, take, min, max, leb, ◌==◌, if◌then◌else◌,
}

pub record Bar : Type 0 where
  pub total_pages : ℕ
  pub safe_page : ℕ
  pub start_idx : ℕ
  pub end_idx : ℕ
  -- Is `fetch more` offered, and are the two arrows disabled?
  pub fetch_more : Bool
  pub previous_disabled : Bool
  pub next_disabled : Bool

-- PAGE_SIZE of the two views
abbrev pub table_page_size : ℕ
table_page_size = 25

abbrev pub grid_page_size : ℕ
grid_page_size = 24

-- Math.ceil(total / size)
abbrev pub ceil_div : ℕ → ℕ → ℕ
ceil_div total size = (total + (size - 1)) / size

unfoldable pub pagination_bar : ℕ → ℕ → ℕ → Bool → Bar
pagination_bar page page_size total_shown has_more =
    let total_pages = max 1 (ceil_div total_shown page_size) in
    let safe_page = min (max 1 page) total_pages in
    record {
      total_pages = total_pages;
      safe_page = safe_page;
      start_idx = if total_shown == 0 then 0 else (safe_page - 1) * page_size + 1;
      end_idx = min (safe_page * page_size) total_shown;
      fetch_more = has_more && (safe_page == total_pages);
      previous_disabled = leb safe_page 1;
      next_disabled = leb total_pages safe_page;
    }

-- records.slice(start, start + PAGE_SIZE), for a page from 1 on.
unfoldable pub paginated {ℓ} : {A : Type ℓ} → ℕ → ℕ → List A → List A
paginated page page_size records = take page_size (drop ((page - 1) * page_size) records)

pub data Click : Type 0 where
  previous next : Click

-- The page after a click, which a disabled arrow does not take.
unfoldable pub turn : ℕ → ℕ → Click → ℕ → ℕ
unfolding pagination_bar
turn page_size total_shown previous page =
    let bar = pagination_bar page page_size total_shown false in
    if bar.previous_disabled then page else bar.safe_page - 1
turn page_size total_shown next page =
    let bar = pagination_bar page page_size total_shown false in
    if bar.next_disabled then page else bar.safe_page + 1
