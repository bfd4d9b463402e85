-- ===== src/Views/Rail.antt =====
-- studio/src/components: PartitionRail.tsx and DocumentList.tsx, the two lists of the split view,
-- and Breadcrumb.tsx. A partition is chosen by the numeral of its prefix.
pub mod Calls
use beast_db.Prelude.{
  ℕ, Bool, true, false, not, ◌&&◌, ◌||◌, Option, none, some, List, [], ◌∷◌, ◌++◌, length, ltb,
  if◌then◌else◌,
}
use beast_db.Js.Text.{Text, units, same}
use beast_db.Js.Case.{CaseMap}
use beast_db.Js.BigInt.{to_decimal}
use beast_db.Types.{UniversalRecord}
use beast_db.Partitions.{Partition}
use beast_db.Display.{record_preview}
use beast_db.Views.Html.{
  Html, Attr, click, disabled, attr, nothing, say, ◌⊕◌, el, with_attrs, button, lit, prop, when,
  when_text, each, either,
}

-- The value of aria-current.
current : Bool → Text → Option Text
current b name = if b then some name else none

pub record RailProps (E : Type 0) : Type 0 where
  pub partitions : List Partition
  pub selected : Text
  pub total : ℕ
  pub has_more : Bool
  pub has_full_counts : Bool
  pub on_select : Text → List E

module _ {E : Type 0} where
  partition_button : RailProps E → Partition → Html E
  unfolding current to_decimal
  partition_button p x =
      let is_selected = same p.selected (to_decimal x.prefix) in
      with_attrs "button"
        (click (p.on_select (to_decimal x.prefix))
          ∷ attr (units "aria-current") (current is_selected (units "page"))
          ∷ [])
        (with_attrs "span" (prop "title" x.label ∷ []) (say x.label)
          ⊕ el "span" (say (to_decimal x.count)))

  unfoldable pub partition_rail : RailProps E → Html E
  unfolding partition_button
  partition_rail p = el "aside" (
      el "div" (el "h2" (lit "Collections") ⊕ el "p" (say (to_decimal p.total ++ units " records")))
      ⊕ el "nav" (each (partition_button p) p.partitions)
      ⊕ when (not p.has_full_counts && p.has_more) (el "p" (lit "More records may be available.")))

pub record ListProps (E : Type 0) : Type 0 where
  pub records : List UniversalRecord
  pub selected : Option UniversalRecord
  pub loading : Bool
  pub loading_more : Bool
  pub has_more : Bool
  pub title : Text
  pub shown_count : ℕ
  pub on_load_more : List E
  pub on_select : UniversalRecord → List E
  pub on_back : List E
  pub can_write : Bool
  pub on_new : List E

-- selected?.keyStr === key
unfoldable pub is_key : Option Text → Text → Bool
is_key none key = false
is_key (some k) key = same k key

-- selected?.keyStr
abbrev pub key_of : Option UniversalRecord → Option Text
key_of none = none
key_of (some r) = some r.key_str

module _ {E : Type 0} ⦃c : CaseMap⦄ where
  document_row : ListProps E → UniversalRecord → Html E
  unfolding current is_key record_preview
  document_row p r =
      let selected = is_key (key_of p.selected) r.key_str in
      with_attrs "button"
        (click (p.on_select r) ∷ attr (units "aria-current") (current selected (units "true")) ∷ [])
        (with_attrs "span" (prop "title" r.primary_label ∷ []) (say r.primary_label)
          ⊕ with_attrs "span" (prop "title" (record_preview r) ∷ []) (say (record_preview r)))

  rows : ListProps E → List UniversalRecord → Html E
  unfolding document_row
  rows p [] = either p.loading (el "p" (lit "Loading records…")) (
      el "div" (
        el "p" (lit "No records here")
        ⊕ el "p" (lit "Choose another collection or create a record.")))
  rows p (r ∷ rs) = el "div" (each (document_row p) (r ∷ rs))

  list_foot : ListProps E → Html E
  unfolding to_decimal
  list_foot p = el "div" (
      el "span" (
        say (to_decimal p.shown_count ++ units " shown")
        ⊕ when p.has_more (lit " · more available"))
      ⊕ when p.has_more (
          with_attrs "Button" (disabled p.loading_more ∷ click p.on_load_more ∷ [])
            (either p.loading_more (lit "Loading…") (lit "Load more"))))

  unfoldable pub document_list : ListProps E → Html E
  unfolding rows list_foot
  document_list p = el "div" (
      el "div" (
        el "div" (
          with_attrs "Button"
            (prop "aria-label" (units "Back to collections") ∷ click p.on_back ∷ []) nothing
          ⊕ with_attrs "h2" (prop "title" p.title ∷ []) (say p.title))
        ⊕ when p.can_write (with_attrs "Button" (click p.on_new ∷ []) (lit "New")))
      ⊕ el "div" (rows p p.records)
      ⊕ list_foot p)

-- Breadcrumb
unfoldable pub breadcrumb : {E : Type 0} → Text → Text → List E → Html E
breadcrumb partition_label record_label on_back = el "nav" (
    el "div" (el "span" (lit "BeastDB"))
    ⊕ button on_back (say partition_label)
    ⊕ when_text record_label (el "span" (say record_label)))
