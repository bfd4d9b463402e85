-- ===== src/Views/Cells/Throws.antt =====
-- When a row or a card cannot be rendered.
use beast_db.Prelude.{
  ◌≡◌, refl, Bool, true, false, ◌||◌, Option, none, some, List, [], ◌∷◌, any, arith, take,
}
use beast_db.Js.Text.{Text}
use beast_db.Js.Json.{Json, Items, null, bool, num, str, arr, obj, nil, cons}
use beast_db.Types.{UniversalRecord}
use beast_db.Views.Html.{Html, el, say, lit, nothing, each, when_text, throws}
use beast_db.Views.Values.{child, children, when_value}
use beast_db.Views.Cells.{cover_or, status_or, rating_or, attribute_tag, labels, table_row, card}

-- Is the value an object, or an array that holds one, at any depth?
abbrev mutual
  pub holds_object : Json → Bool
  holds_object null = false
  holds_object (bool b) = false
  holds_object (num n) = false
  holds_object (str s) = false
  holds_object (arr js) = hold_object js
  holds_object (obj fs) = true

  pub hold_object : Items → Bool
  hold_object nil = false
  hold_object (cons j js) = holds_object j || hold_object js

abbrev pub holds_in : Option Json → Bool
holds_in none = false
holds_in (some j) = holds_object j

-- Does the status of the record hold one?
abbrev pub has_object_status : UniversalRecord → Bool
has_object_status r = holds_in r.status

any-false : {A : Type 0} (xs : List A) → any (λ x. false) xs ≡ false
any-false [] = refl
any-false (x ∷ xs) = any-false xs

module _ (E : Type 0) where
  mutual
    unfolding child children

    throws-child : (j : Json) → throws (child {E = E} j) ≡ holds_object j
    throws-child null = refl
    throws-child (bool b) = refl
    throws-child (num n) = refl
    throws-child (str s) = refl
    throws-child (arr js) = throws-children js
    throws-child (obj fs) = refl

    throws-children : (js : Items) → throws (children {E = E} js) ≡ hold_object js
    throws-children nil = refl
    throws-children (cons j js) = ground (arith, throws-child j, throws-children js)

  pub throws-each {ℓ} :
      {A : Type ℓ} (f : A → Html E) (p : A → Bool) (xs : List A)
      → ((x : A) → throws (f x) ≡ p x)
      → throws (each f xs) ≡ any p xs
  throws-each f p [] h = refl
  throws-each f p (x ∷ xs) h = ground (arith, h x, throws-each f p xs h)

  throws-cover_or :
      (o : Option Text) (other : Html E) → throws other ≡ false → throws (cover_or o other) ≡ false
  throws-cover_or none other h = h
  throws-cover_or (some []) other h = h
  throws-cover_or (some (u ∷ s)) other h = refl

  throws-when_text : (t : Text) → throws (when_text {E = E} t (el "p" (say t))) ≡ false
  throws-when_text [] = refl
  throws-when_text (u ∷ t) = refl

  throws-status_or :
      (o : Option Json) (other : Html E)
      → throws other ≡ false
      → throws (status_or o other) ≡ holds_in o
  unfolding status_or
  throws-status_or none other h = h
  throws-status_or (some null) other h = h
  throws-status_or (some (bool true)) other h = unfold child in refl
  throws-status_or (some (bool false)) other h = h
  throws-status_or (some (num n)) other h = ground (arith, throws-child (num n))
  throws-status_or (some (str [])) other h = h
  throws-status_or (some (str (u ∷ s))) other h = unfold child in refl
  throws-status_or (some (arr js)) other h = throws-child (arr js)
  throws-status_or (some (obj fs)) other h = unfold child in refl

  throws-when_status :
      (o : Option Json) → throws (when_value {E = E} o (λ j. el "span" (child j))) ≡ holds_in o
  throws-when_status none = refl
  throws-when_status (some j) = ground (arith, throws-child j)

  throws-rating_or :
      (o : Option Json) (other : Html E) → throws other ≡ false → throws (rating_or o other) ≡ false
  unfolding rating_or
  throws-rating_or none other h = h
  throws-rating_or (some null) other h = h
  throws-rating_or (some (bool b)) other h = refl
  throws-rating_or (some (num n)) other h = refl
  throws-rating_or (some (str s)) other h = refl
  throws-rating_or (some (arr js)) other h = refl
  throws-rating_or (some (obj fs)) other h = refl

  throws-labels : (r : UniversalRecord) → throws (labels {E = E} r) ≡ false
  unfolding labels
  throws-labels r = throws-when_text r.secondary_label

  module _ (on_select : UniversalRecord → List E) where
    pub throws-table_row :
        (r : UniversalRecord) → throws (table_row on_select r) ≡ has_object_status r
    unfolding table_row attribute_tag
    throws-table_row r = ground (
      arith,
      throws-cover_or r.cover_url (el "div" nothing) refl,
      throws-labels r,
      throws-status_or r.status (el "span" (lit "—")) refl,
      throws-rating_or r.rating (el "span" (lit "—")) refl,
      throws-each attribute_tag (λ a. false) (take 3 r.attributes) (λ a. refl),
      any-false (take 3 r.attributes),
    )

    pub throws-card : (r : UniversalRecord) → throws (card on_select r) ≡ has_object_status r
    unfolding card
    throws-card r = ground (
      arith,
      throws-cover_or r.cover_url (el "div" (el "span" (say r.prefix_label))) refl,
      throws-labels r,
      throws-when_status r.status,
      throws-rating_or r.rating nothing refl,
    )
