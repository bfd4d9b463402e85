-- ===== src/Views/Banner.antt =====
-- studio/src/components/SearchCoverageBanner.tsx: what a search has found so far.
pub mod Calls
use beast_db.Prelude.{
  ℕ, Bool, true, false, Option, none, some, List, [], ◌∷◌, ◌++◌, ◌==◌, if◌then◌else◌,
}
use beast_db.Js.Text.{Text, units}
use beast_db.Js.BigInt.{to_decimal}
use beast_db.Keys.Registry.{hex_byte}
use beast_db.Views.Html.{
  Html, Attr, click, disabled, nothing, say, ◌⊕◌, el, with_attrs, lit, when, when_some, either,
}
use beast_db.Views.Formats.{Formats}

pub record BannerProps (E : Type 0) : Type 0 where
  pub query : Text
  pub count : ℕ
  pub scanned_count : ℕ
  pub has_more : Bool
  pub prefix : Option ℕ
  pub prefix_label : Option Text
  pub loading_more : Bool
  pub on_continue_scan : Option (List E)
  pub on_clear : List E

in_brackets : Option Text → Text
in_brackets none = []
in_brackets (some []) = []
in_brackets (some (u ∷ s)) = units " (" ++ (u ∷ s) ++ units ")"

unfoldable pub scope_text : Option ℕ → Option Text → Text
unfolding in_brackets hex_byte
scope_text none label = units "Entire Keyspace"
scope_text (some prefix) label = units "Partition 0x" ++ hex_byte prefix ++ in_brackets label

module _ {E : Type 0} (f : Formats) where
  found : BannerProps E → Html E
  unfolding scope_text to_decimal
  found p = el "div" (
      el "span" (
        say (to_decimal p.count ++ units " ")
        ⊕ either (p.count == 1) (lit "match") (lit "matches")
        ⊕ lit " found")
      ⊕ el "span" (say (units " for “" ++ p.query ++ units "” · "))
      ⊕ el "span" (
          say (
            f.number_text p.scanned_count
            ++ units " keys inspected in "
            ++ scope_text p.prefix p.prefix_label))
      ⊕ when p.has_more (el "span" (lit "(More uninspected keys remain in database)")))

  unfoldable pub search_coverage_banner : BannerProps E → Html E
  unfolding found
  search_coverage_banner p = el "div" (
      el "div" (found p)
      ⊕ el "div" (
          when_some p.on_continue_scan (λ continue. when p.has_more (
            with_attrs "Button" (click continue ∷ disabled p.loading_more ∷ [])
              (lit "Scan Next Chunk")))
          ⊕ with_attrs "Button" (click p.on_clear ∷ []) (lit "Clear Results")))
