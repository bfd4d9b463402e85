-- ===== src/Views/Toolbar.antt =====
-- studio/src/components: StatusFilterBar.tsx and RecordsToolbar.tsx, the filter by status and the
-- switch of the view.
pub mod Filters
pub mod Calls
use beast_db.Prelude.{
  ℕ, ◌+◌, Bool, true, false, ◌&&◌, Option, none, some, List, [], ◌∷◌, ◌++◌, length, if◌then◌else◌,
}
use beast_db.Prelude.Sort.{sort, descending}
use beast_db.Js.Text.{Text, units, same, trim}
use beast_db.Js.Case.{CaseMap, to_lower}
use beast_db.Js.Json.{Json, str}
use beast_db.Js.BigInt.{to_decimal}
use beast_db.Types.{UniversalRecord, ViewMode, split, table, grid}
use beast_db.Views.Html.{
  Html, Attr, click, nothing, say, ◌⊕◌, el, with_attrs, button, lit, prop, when, each,
}

-- map.set(s, (map.get(s) ?? 0) + 1)
unfoldable pub bump : Text → List (Text × ℕ) → List (Text × ℕ)
bump s [] = (s, 1) ∷ []
bump s ((t, n) ∷ m) = if same t s then (t, n + 1) ∷ m else (t, n) ∷ bump s m

module _ ⦃c : CaseMap⦄ where
  abbrev pub normal : Text → Text
  normal s = to_lower (trim s)

  -- The status of a record, if it is a text that is not empty.
  unfoldable pub add_status : Option Json → List (Text × ℕ) → List (Text × ℕ)
  unfolding bump
  add_status none m = m
  add_status (some (str [])) m = m
  add_status (some (str (u ∷ s))) m = bump (normal (u ∷ s)) m
  add_status (some j) m = m

  unfoldable pub count_statuses : List UniversalRecord → List (Text × ℕ) → List (Text × ℕ)
  unfolding add_status
  count_statuses [] m = m
  count_statuses (r ∷ rs) m = count_statuses rs (add_status r.status m)

  unfoldable pub status_counts : List UniversalRecord → List (Text × ℕ)
  unfolding count_statuses sort
  status_counts records = sort (descending (λ e. e.1)) (count_statuses records [])

pub record FilterProps (E : Type 0) : Type 0 where
  pub records : List UniversalRecord
  pub active_status : Text
  pub on_select_status : Text → List E

module _ {E : Type 0} where
  pill : FilterProps E → Text × ℕ → Html E
  unfolding to_decimal
  pill p (status, count) =
      button (p.on_select_status (if same p.active_status status then units "all" else status))
        (el "span" (say status) ⊕ el "span" (say (to_decimal count)))

  pills : FilterProps E → List (Text × ℕ) → Html E
  unfolding pill to_decimal
  pills p [] = nothing
  pills p (e ∷ es) = el "div" (
      button (p.on_select_status (units "all"))
        (el "span" (lit "All") ⊕ el "span" (say (to_decimal (length p.records))))
      ⊕ each (pill p) (e ∷ es))

module _ {E : Type 0} ⦃c : CaseMap⦄ where
  unfoldable pub status_filter_bar : FilterProps E → Html E
  unfolding pills status_counts
  status_filter_bar p = pills p (status_counts p.records)

pub record ToolbarProps (E : Type 0) : Type 0 where
  pub records : List UniversalRecord
  pub active_status : Text
  pub on_select_status : Text → List E
  pub on_view_mode_change : ViewMode → List E
  pub can_write : Bool
  pub on_new : List E

module _ {E : Type 0} ⦃c : CaseMap⦄ where
  mode_button : ToolbarProps E → ViewMode → Text → Text → Html E
  mode_button p mode title name =
      with_attrs "button" (click (p.on_view_mode_change mode) ∷ prop "title" title ∷ [])
        (el "span" (say name))

  unfoldable pub records_toolbar : ToolbarProps E → Html E
  unfolding mode_button status_filter_bar
  records_toolbar p = el "div" (
      status_filter_bar (record {
        records = p.records;
        active_status = p.active_status;
        on_select_status = p.on_select_status;
      })
      ⊕ el "div" (
          el "div" (
            mode_button p table (units "Spreadsheet Table View") (units "Table")
            ⊕ mode_button p grid (units "Poster / Card Gallery View") (units "Gallery")
            ⊕ mode_button p split (units "Classic 3-Pane Split View") (units "Split"))
          ⊕ when p.can_write (with_attrs "Button" (click p.on_new ∷ []) (lit "New Record"))))
