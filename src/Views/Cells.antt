-- ===== src/Views/Cells.antt =====
-- studio/src/components: a row of RecordTableView.tsx, and a card of RecordGridView.tsx.
pub mod Calls
pub mod Throws
use beast_db.Prelude.{
  ℕ, Bool, true, false, Option, none, some, List, [], ◌∷◌, ◌++◌, take, if◌then◌else◌,
}
use beast_db.Js.Text.{Text, units, split}
use beast_db.Js.Json.{Json, null, to_text, truthy}
use beast_db.Types.{Attribute, UniversalRecord}
use beast_db.Keys.Format.{format_key}
use beast_db.Views.Html.{
  Html, Attr, click, nothing, say, ◌⊕◌, el, with_attrs, button, lit, prop, when, when_text, each,
}
use beast_db.Views.Values.{child, when_value}

-- parts.pop(), for parts that are not empty
abbrev last_part : List Text → Text
last_part [] = []
last_part (p ∷ []) = p
last_part (p ∷ q ∷ ps) = last_part (q ∷ ps)

module _ {E : Type 0} where
  -- r.coverUrl ? <img/> : other
  abbrev pub cover_or : Option Text → Html E → Html E
  cover_or none other = other
  cover_or (some []) other = other
  cover_or (some (u ∷ s)) other = with_attrs "img" (prop "src" (u ∷ s) ∷ prop "alt" [] ∷ []) nothing

  -- r.status ? <span/> : other
  status_or : Option Json → Html E → Html E
  unfolding child
  status_or none other = other
  status_or (some j) other = if truthy j then el "span" (child j) else other

  -- r.rating != null ? <span/> : other
  unfoldable pub rating_or : Option Json → Html E → Html E
  unfolding to_text
  rating_or none other = other
  rating_or (some null) other = other
  rating_or (some j) other = el "span" (say (to_text j))

  attribute_tag : Attribute → Html E
  unfolding split
  attribute_tag a =
      el "span"
        (el "span" (say (last_part (split b'.' a.key) ++ units ":")) ⊕ say (units " " ++ a.value))

  labels : UniversalRecord → Html E
  labels r =
      el "p" (say r.primary_label) ⊕ when_text r.secondary_label (el "p" (say r.secondary_label))

  unfoldable pub table_row : (UniversalRecord → List E) → UniversalRecord → Html E
  unfolding status_or rating_or attribute_tag labels format_key
  table_row on_select r =
      let dash = el "span" (lit "—") in
      with_attrs "tr" (click (on_select r) ∷ []) (
        el "td" (cover_or r.cover_url (el "div" nothing))
        ⊕ el "td" (labels r)
        ⊕ el "td" (status_or r.status dash)
        ⊕ el "td" (rating_or r.rating dash)
        ⊕ el "td" (el "div" (each attribute_tag (take 3 r.attributes)))
        ⊕ el "td" (say (format_key r.key_str)))

  unfoldable pub card : (UniversalRecord → List E) → UniversalRecord → Html E
  unfolding rating_or labels child
  card on_select r = button (on_select r) (
      el "div" (
        cover_or r.cover_url (el "div" (el "span" (say r.prefix_label)))
        ⊕ when_value r.status (λ status. el "span" (child status))
        ⊕ rating_or r.rating nothing)
      ⊕ el "div" (labels r))
