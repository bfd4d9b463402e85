-- ===== src/Views/SearchBar/Calls.antt =====
-- The calls of the search bar.
use beast_db.Prelude.{ℕ, ◌≡◌, refl, Bool, true, ◌||◌, Option, List, all, arith, length, ltb}
use beast_db.Js.Text.{Text, units, trim}
use beast_db.Views.Html.{every}
use beast_db.Views.Html.Laws.{every-each}
use beast_db.Views.SearchBar.{
  SearchMode, text, exact, range, BarProps, scope, is_blank, handle_text_submit,
  handle_exact_submit, handle_range_submit, mode_button, input, submit_button, partition_option,
  text_form, exact_form, range_form, form, hint, global_search_bar,
}

module _ {E : Type 0} (p : E → Bool) (d : BarProps E) where
  -- A submit passes a test that its call passes, and any test while the page is busy.
  pub all-handle_text_submit :
      ((t : Text) (o : Option ℕ) → (d.busy || all p (d.on_search_text t o)) ≡ true)
      → all p (handle_text_submit d) ≡ true
  unfolding handle_text_submit
  all-handle_text_submit searches =
      ground (arith, searches (trim d.state.text_query) (scope d.state.selected_prefix))

  pub all-handle_exact_submit :
      ((t : Text) → (d.busy || all p (d.on_lookup_key t)) ≡ true)
      → all p (handle_exact_submit d) ≡ true
  unfolding handle_exact_submit
  all-handle_exact_submit looks = ground (arith, looks (trim d.state.exact_key))

  pub all-handle_range_submit :
      ((a b : Text) → (d.busy || all p (d.on_scan_range a b)) ≡ true)
      → all p (handle_range_submit d) ≡ true
  unfolding handle_range_submit
  all-handle_range_submit scans =
      ground (arith, scans (trim d.state.range_start) (trim d.state.range_end))

module _ {E : Type 0} (p : E → Bool) (d : BarProps E)
    (searches : (t : Text) (o : Option ℕ) → (d.busy || all p (d.on_search_text t o)) ≡ true)
    (looks : (t : Text) → (d.busy || all p (d.on_lookup_key t)) ≡ true)
    (scans : (a b : Text) → (d.busy || all p (d.on_scan_range a b)) ≡ true) where
  every-input : (a b : Text) (edit : Text → List E) → every p (input a b edit) ≡ true
  unfolding input
  every-input a b edit = refl

  every-submit_button :
      (off busy : Bool) (a b : Text) → every p (submit_button {E = E} off busy a b) ≡ true
  unfolding submit_button
  every-submit_button off busy a b = ground arith

  every-form : (m : SearchMode) → every p (form m d) ≡ true
  unfolding form text_form exact_form range_form input partition_option
  every-form text = ground (
    arith,
    all-handle_text_submit p d searches,
    every-each p partition_option d.partitions (λ x. refl),
    every-submit_button (ltb (length (trim d.state.text_query)) 2 || d.busy) d.busy
        (units "Scanning...") (units "Search Database"),
  )
  every-form exact = ground (
    arith,
    all-handle_exact_submit p d looks,
    every-submit_button (is_blank d.state.exact_key || d.busy) d.busy (units "Looking up...")
        (units "Find Key"),
  )
  every-form range = ground (
    arith,
    all-handle_range_submit p d scans,
    every-submit_button (is_blank d.state.range_start || is_blank d.state.range_end || d.busy)
        d.busy (units "Scanning...") (units "Scan Range"),
  )

  every-hint : (m : SearchMode) → every p (hint {E = E} m) ≡ true
  unfolding hint
  every-hint text = refl
  every-hint exact = refl
  every-hint range = refl

  pub every-global_search_bar :
      ((m : SearchMode) → all p (d.on_mode_change m) ≡ true) → every p (global_search_bar d) ≡ true
  unfolding global_search_bar mode_button
  every-global_search_bar modes =
      ground (arith, modes text, modes exact, modes range, every-form d.mode, every-hint d.mode)
