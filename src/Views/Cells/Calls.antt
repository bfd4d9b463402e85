-- ===== src/Views/Cells/Calls.antt =====
-- The calls of a row and of a card.
use beast_db.Prelude.{◌≡◌, refl, Bool, true, Option, none, some, List, [], ◌∷◌, all, take, arith}
use beast_db.Js.Text.{Text}
use beast_db.Js.Json.{Json, null, bool, num, str, arr, obj}
use beast_db.Types.{UniversalRecord}
use beast_db.Views.Html.{Html, say, nothing, el, lit, every}
use beast_db.Views.Html.Laws.{every-each, every-when_text}
use beast_db.Views.Values.{child}
use beast_db.Views.Values.Calls.{every-child, every-when_value}
use beast_db.Views.Cells.{cover_or, status_or, rating_or, attribute_tag, labels, table_row, card}

module _ {E : Type 0} (p : E → Bool) where
  module _ (other : Html E) (h : every p other ≡ true) where
    every-cover_or : (o : Option Text) → every p (cover_or o other) ≡ true
    every-cover_or none = h
    every-cover_or (some []) = h
    every-cover_or (some (u ∷ s)) = refl

    every-status_or : (o : Option Json) → every p (status_or o other) ≡ true
    unfolding status_or
    every-status_or none = h
    every-status_or (some j) = ground (arith, every-child p j)

    every-rating_or : (o : Option Json) → every p (rating_or o other) ≡ true
    unfolding rating_or
    every-rating_or none = h
    every-rating_or (some null) = h
    every-rating_or (some (bool b)) = refl
    every-rating_or (some (num n)) = refl
    every-rating_or (some (str s)) = refl
    every-rating_or (some (arr js)) = refl
    every-rating_or (some (obj fs)) = refl

  every-labels : (r : UniversalRecord) → every p (labels {E = E} r) ≡ true
  unfolding labels
  every-labels r = every-when_text p r.secondary_label (el "p" (say r.secondary_label)) refl

  module _ (on_select : UniversalRecord → List E)
      (selects : (r : UniversalRecord) → all p (on_select r) ≡ true) where
    pub every-table_row : (r : UniversalRecord) → every p (table_row on_select r) ≡ true
    unfolding table_row attribute_tag
    every-table_row r = ground (
      arith,
      selects r,
      every-cover_or (el "div" nothing) refl r.cover_url,
      every-labels r,
      every-status_or (el "span" (lit "—")) refl r.status,
      every-rating_or (el "span" (lit "—")) refl r.rating,
      every-each p attribute_tag (take 3 r.attributes) (λ a. refl),
    )

    pub every-card : (r : UniversalRecord) → every p (card on_select r) ≡ true
    unfolding card
    every-card r = ground (
      arith,
      selects r,
      every-cover_or (el "div" (el "span" (say r.prefix_label))) refl r.cover_url,
      every-labels r,
      every-when_value p r.status (λ status. el "span" (child status)) (every-child p),
      every-rating_or nothing refl r.rating,
    )
