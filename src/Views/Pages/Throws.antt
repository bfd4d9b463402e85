-- ===== src/Views/Pages/Throws.antt =====
-- The bar under a table can always be rendered.
use beast_db.Prelude.{◌≡◌, false, arith}
use beast_db.Paging.{Bar, pagination_bar}
use beast_db.Views.Html.{throws}
use beast_db.Views.Pages.{PagesProps, showing, arrow, pager, pages}

module _ {E : Type 0} (d : PagesProps E) where
  throws-showing : (b : Bar) → throws (showing d b) ≡ false
  unfolding showing
  throws-showing b = ground arith

  throws-pager : (b : Bar) → throws (pager d b) ≡ false
  unfolding pager arrow
  throws-pager b = ground arith

  pub throws-pages : throws (pages d) ≡ false
  unfolding pages
  throws-pages =
      let bar = pagination_bar d.page d.page_size d.total_shown d.has_more in
      ground (arith, throws-showing bar, throws-pager bar)
