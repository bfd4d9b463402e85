-- ===== src/Views/SearchBar.antt =====
-- studio/src/components: GlobalSearchBar.tsx and SearchCoverageBanner.tsx. A selected partition is a
-- numeral, or the text `all`.
pub mod Calls
use beast_db.Prelude.{
  ℕ, Bool, true, false, not, ◌&&◌, ◌||◌, Option, none, some, List, [], ◌∷◌, ◌++◌, length, ltb, ◌==◌,
  if◌then◌else◌,
}
use beast_db.Js.Text.{Text, units, same, trim}
use beast_db.Js.Radix.{parse_radix}
use beast_db.Js.BigInt.{to_decimal}
use beast_db.Keys.Registry.{hex_byte}
use beast_db.Partitions.{Partition}
use beast_db.Views.Html.{
  Html, Attr, click, submit, change, disabled, attr, nothing, say, ◌⊕◌, el, with_attrs, button, lit,
  prop, when, when_some, each, either,
}
use beast_db.Views.Formats.{Formats}

pub data SearchMode : Type 0 where
  text exact range : SearchMode

pub record Bar : Type 0 where
  pub text_query : Text
  pub selected_prefix : Text
  pub exact_key : Text
  pub range_start : Text
  pub range_end : Text

-- The state of the first render, and the effect when another partition is opened.
unfoldable pub new_bar : Text → Bar
new_bar active = record {
  text_query = [];
  selected_prefix = active;
  exact_key = [];
  range_start = [];
  range_end = [];
}

unfoldable pub follow : Text → Bar → Bar
follow active b = record b { selected_prefix = active }

pub record BarProps (E : Type 0) : Type 0 where
  pub mode : SearchMode
  pub partitions : List Partition
  pub busy : Bool
  pub on_mode_change : SearchMode → List E
  pub on_search_text : Text → Option ℕ → List E
  pub on_lookup_key : Text → List E
  pub on_scan_range : Text → Text → List E
  pub state : Bar
  pub set_state : Bar → List E

abbrev pub is_blank : Text → Bool
is_blank s = elim (trim s) [ [] ↦ true | u ∷ w ↦ false ]

-- selectedPrefix !== "all" ? Number(selectedPrefix) : undefined
scope : Text → Option ℕ
unfolding parse_radix
scope selected = if same selected (units "all") then none else parse_radix 10 selected

module _ {E : Type 0} where
  unfoldable pub handle_text_submit : BarProps E → List E
  unfolding scope trim
  handle_text_submit p =
      if is_blank p.state.text_query || p.busy
      then []
      else p.on_search_text (trim p.state.text_query) (scope p.state.selected_prefix)

  unfoldable pub handle_exact_submit : BarProps E → List E
  unfolding trim
  handle_exact_submit p =
      if is_blank p.state.exact_key || p.busy then [] else p.on_lookup_key (trim p.state.exact_key)

  unfoldable pub handle_range_submit : BarProps E → List E
  unfolding trim
  handle_range_submit p =
      if is_blank p.state.range_start || is_blank p.state.range_end || p.busy
      then []
      else p.on_scan_range (trim p.state.range_start) (trim p.state.range_end)

  mode_button : BarProps E → SearchMode → Text → Html E
  mode_button p mode name = button (p.on_mode_change mode) (say name)

  input : Text → Text → (Text → List E) → Html E
  input value placeholder edit =
      with_attrs "Input" (prop "value" value ∷ change edit ∷ prop "placeholder" placeholder ∷ [])
        nothing

  submit_button : Bool → Bool → Text → Text → Html E
  submit_button off busy busy_name name =
      with_attrs "Button" (prop "type" (units "submit") ∷ disabled off ∷ [])
        (either busy (say busy_name) (say name))

  partition_option : Partition → Html E
  unfolding to_decimal
  partition_option x = with_attrs "option" (prop "value" (to_decimal x.prefix) ∷ []) (say x.label)

  text_form : BarProps E → Html E
  unfolding handle_text_submit input submit_button partition_option trim
  text_form p = with_attrs "form" (submit (handle_text_submit p) ∷ []) (
      el "div" (
        input p.state.text_query (units "Search record content across database (min 2 chars)...")
          (λ s. p.set_state (record (p.state) { text_query = s })))
      ⊕ with_attrs "select"
          (prop "aria-label" (units "Filter search partition")
            ∷ prop "value" p.state.selected_prefix
            ∷ change (λ s. p.set_state (record (p.state) { selected_prefix = s }))
            ∷ [])
          (with_attrs "option" (prop "value" (units "all") ∷ [])
              (lit "Entire Keyspace (All Partitions)")
            ⊕ each partition_option p.partitions)
      ⊕ submit_button (ltb (length (trim p.state.text_query)) 2 || p.busy) p.busy
          (units "Scanning...") (units "Search Database"))

  exact_form : BarProps E → Html E
  unfolding handle_exact_submit input submit_button
  exact_form p = with_attrs "form" (submit (handle_exact_submit p) ∷ []) (
      el "div" (
        input p.state.exact_key (units "Enter 64-bit decimal key (e.g. 72057594037927937)...")
          (λ s. p.set_state (record (p.state) { exact_key = s })))
      ⊕ submit_button (is_blank p.state.exact_key || p.busy) p.busy (units "Looking up...")
          (units "Find Key"))

  range_form : BarProps E → Html E
  unfolding handle_range_submit input submit_button
  range_form p = with_attrs "form" (submit (handle_range_submit p) ∷ []) (
      input p.state.range_start (units "Start Key (decimal)...")
        (λ s. p.set_state (record (p.state) { range_start = s }))
      ⊕ el "span" (lit "to")
      ⊕ input p.state.range_end (units "End Key (decimal)...")
          (λ s. p.set_state (record (p.state) { range_end = s }))
      ⊕ submit_button (is_blank p.state.range_start || is_blank p.state.range_end || p.busy) p.busy
          (units "Scanning...") (units "Scan Range"))

  form : SearchMode → BarProps E → Html E
  unfolding text_form exact_form range_form
  form text p = text_form p
  form exact p = exact_form p
  form range p = range_form p

  hint : SearchMode → Html E
  hint text = lit "Scans values inside B+ Tree slotted pages"
  hint exact = lit "O(log N) point lookup in B+ Tree index"
  hint range = lit "Sequential leaf-node range traversal"

  unfoldable pub global_search_bar : BarProps E → Html E
  unfolding mode_button form hint
  global_search_bar p = el "div" (
      el "div" (
        el "div" (
          mode_button p text (units "Value Text")
          ⊕ mode_button p exact (units "Exact Key")
          ⊕ mode_button p range (units "Key Range"))
        ⊕ el "span" (hint p.mode))
      ⊕ el "div" (form p.mode p))
