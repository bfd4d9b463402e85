-- ===== src/Views/Pages.antt =====
-- studio/src/components/PaginationBar.tsx: the bar under a table.
pub mod Calls
pub mod Throws
use beast_db.Prelude.{
  ℕ, ◌+◌, ◌-◌, Bool, ◌&&◌, Option, none, some, List, [], ◌∷◌, ◌++◌, if◌then◌else◌,
}
use beast_db.Js.Text.{Text, units}
use beast_db.Js.BigInt.{to_decimal}
use beast_db.Paging.{Bar, pagination_bar}
use beast_db.Views.Html.{
  Html, Attr, click, disabled, nothing, say, ◌⊕◌, el, with_attrs, lit, prop, when, when_some,
  either,
}

pub record PagesProps (E : Type 0) : Type 0 where
  pub page : ℕ
  pub page_size : ℕ
  pub total_shown : ℕ
  pub has_more : Bool
  pub loading_more : Bool
  pub on_page_change : ℕ → List E
  pub on_load_more : Option (List E)

module _ {E : Type 0} where
  showing : PagesProps E → Bar → Html E
  unfolding to_decimal
  showing p b = el "div" (
      el "span" (
        say (
          units "Showing "
          ++ to_decimal b.start_idx
          ++ units "–"
          ++ to_decimal b.end_idx
          ++ units " of "
          ++ to_decimal p.total_shown
          ++ units " loaded"))
      ⊕ el "span" (either p.has_more (lit "(more available in partition)") (lit "(all loaded)")))

  arrow : Text → Bool → List E → Html E
  arrow name off calls =
      with_attrs "Button" (disabled off ∷ click calls ∷ prop "aria-label" name ∷ []) nothing

  pager : PagesProps E → Bar → Html E
  unfolding arrow to_decimal
  pager p b = el "div" (
      when_some p.on_load_more (λ load_more. when b.fetch_more (
        with_attrs "Button"
          (disabled p.loading_more
            ∷ click load_more
            ∷ prop "aria-label" (units "Fetch next page chunk from database engine")
            ∷ [])
          (either p.loading_more (lit "Loading…") (lit "Fetch more records"))))
      ⊕ arrow (units "Previous page") b.previous_disabled (p.on_page_change (b.safe_page - 1))
      ⊕ with_attrs "span" (prop "aria-current" (units "page") ∷ [])
          (say (to_decimal b.safe_page ++ units " / " ++ to_decimal b.total_pages))
      ⊕ arrow (units "Next page") b.next_disabled (p.on_page_change (b.safe_page + 1)))

  unfoldable pub pages : PagesProps E → Html E
  unfolding showing pager pagination_bar
  pages p =
      let bar = pagination_bar p.page p.page_size p.total_shown p.has_more in
      with_attrs "nav" (prop "aria-label" (units "Pagination Navigation") ∷ [])
        (showing p bar ⊕ pager p bar)
