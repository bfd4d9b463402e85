-- ===== src/Views/Pages/Calls.antt =====
-- The calls of the bar under a table.
use beast_db.Prelude.{ℕ, ◌+◌, ◌-◌, ◌≡◌, Bool, true, some, List, all, arith}
use beast_db.Paging.{Bar, pagination_bar}
use beast_db.Views.Html.{every}
use beast_db.Views.Pages.{PagesProps, showing, arrow, pager, pages}

module _ {E : Type 0} (p : E → Bool) (d : PagesProps E)
    (turns : (n : ℕ) → all p (d.on_page_change n) ≡ true) where
  every-showing : (b : Bar) → every p (showing d b) ≡ true
  unfolding showing
  every-showing b = ground arith

  every-pager :
      (b : Bar) (load : List E)
      → d.on_load_more ≡ some load
      → all p load ≡ true
      → every p (pager d b) ≡ true
  unfolding pager arrow
  every-pager b load e h = ground (arith, turns (b.safe_page - 1), turns (b.safe_page + 1))

  pub every-pages :
      (load : List E) → d.on_load_more ≡ some load → all p load ≡ true → every p (pages d) ≡ true
  unfolding pages
  every-pages load e h =
      let bar = pagination_bar d.page d.page_size d.total_shown d.has_more in
      ground (arith, every-showing bar, every-pager bar load e h)
