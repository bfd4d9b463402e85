-- ===== src/Views/Toolbar/Calls.antt =====
-- The calls of the toolbar.
use beast_db.Prelude.{ℕ, ◌≡◌, refl, Bool, true, not, ◌||◌, List, [], ◌∷◌, all, arith, if◌then◌else◌}
use beast_db.Js.Text.{Text, units, same}
use beast_db.Js.Case.{CaseMap}
use beast_db.Types.{ViewMode, split, table, grid}
use beast_db.Views.Html.{every}
use beast_db.Views.Html.Laws.{every-each}
use beast_db.Views.Toolbar.{
  FilterProps, pill, pills, status_counts, ToolbarProps, mode_button, records_toolbar,
}

module _ {E : Type 0} (p : E → Bool) (d : FilterProps E)
    (selects : (t : Text) → all p (d.on_select_status t) ≡ true) where
  every-pill : (e : Text × ℕ) → every p (pill d e) ≡ true
  unfolding pill
  every-pill (status, count) =
      ground (arith, selects (if same d.active_status status then units "all" else status))

  every-pills : (es : List (Text × ℕ)) → every p (pills d es) ≡ true
  unfolding pills
  every-pills [] = refl
  every-pills (e ∷ es) =
      ground (arith, selects (units "all"), every-pill e, every-each p (pill d) es every-pill)

module _ {E : Type 0} ⦃c : CaseMap⦄ (p : E → Bool) (d : ToolbarProps E)
    (selects : (t : Text) → all p (d.on_select_status t) ≡ true)
    (modes : (m : ViewMode) → all p (d.on_view_mode_change m) ≡ true) where
  -- All depends on the button for new records.
  pub every-records_toolbar : every p (records_toolbar d) ≡ (not d.can_write || all p d.on_new)
  unfolding records_toolbar mode_button
  every-records_toolbar = ground (
    arith,
    modes table,
    modes grid,
    modes split,
    every-pills p
        (record {
          records = d.records;
          active_status = d.active_status;
          on_select_status = d.on_select_status;
        })
        selects (status_counts d.records),
  )
