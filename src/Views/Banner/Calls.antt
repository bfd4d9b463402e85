-- ===== src/Views/Banner/Calls.antt =====
-- The calls of the banner of a search.
use beast_db.Prelude.{◌≡◌, Bool, true, ◌||◌, some, List, all, arith}
use beast_db.Views.Html.{every}
use beast_db.Views.Formats.{Formats}
use beast_db.Views.Banner.{BannerProps, found, search_coverage_banner}

module _ {E : Type 0} (p : E → Bool) (f : Formats) (d : BannerProps E) (continue : List E)
    (given : d.on_continue_scan ≡ some continue)
    (continues : (d.loading_more || all p continue) ≡ true) (clears : all p d.on_clear ≡ true) where
  pub every-search_coverage_banner : every p (search_coverage_banner f d) ≡ true
  unfolding search_coverage_banner found
  every-search_coverage_banner = ground arith
