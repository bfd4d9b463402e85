-- ===== src/Views/Html/Laws.antt =====
-- The calls that a tree of elements can make.
use beast_db.Prelude.{
  ◌≡◌, refl, ◌∙◌, ap, Bool, true, ◌&&◌, ◌||◌, Option, none, some, List, [], ◌∷◌, ◌++◌, all, arith,
  if◌then◌else◌,
}
use beast_db.Js.Text.{Text}
use beast_db.Views.Html.{
  Html, Attr, click, submit, change, disabled, attr, nothing, say, element, ◌⊕◌, invalid, each,
  calls, every, every_handler, is_disabled, handlers, when_some, when_text,
}

pub all-append {ℓ} :
    {A : Type ℓ} (p : A → Bool) (xs ys : List A) → all p (xs ++ ys) ≡ (all p xs && all p ys)
all-append p [] ys = refl
all-append p (x ∷ xs) ys = ground (arith, all-append p xs ys)

module _ {E : Type 0} (p : E → Bool) where
  all-handlers : (attrs : List (Attr E)) → all p (handlers attrs) ≡ every_handler p attrs
  all-handlers [] = refl
  all-handlers (click calls ∷ attrs) =
      all-append p calls (handlers attrs) ∙ ap (λ b. all p calls && b) (all-handlers attrs)
  all-handlers (submit calls ∷ attrs) =
      all-append p calls (handlers attrs) ∙ ap (λ b. all p calls && b) (all-handlers attrs)
  all-handlers (change f ∷ attrs) = all-handlers attrs
  all-handlers (disabled b ∷ attrs) = all-handlers attrs
  all-handlers (attr name value ∷ attrs) = all-handlers attrs

  all-own :
      (attrs : List (Attr E))
      → all p (if is_disabled attrs then [] else handlers attrs)
        ≡ (is_disabled attrs || every_handler p attrs)
  all-own attrs = ground (arith, all-handlers attrs)

  pub all-calls : (h : Html E) → all p (calls h) ≡ every p h
  all-calls nothing = refl
  all-calls (say s) = refl
  all-calls invalid = refl
  all-calls (element tag attrs body) =
      all-append p (if is_disabled attrs then [] else handlers attrs) (calls body)
      ∙ ground (arith, all-own attrs, all-calls body)
  all-calls (a ⊕ b) = all-append p (calls a) (calls b) ∙ ground (arith, all-calls a, all-calls b)

  pub every-each {ℓ} :
      {A : Type ℓ} (f : A → Html E) (xs : List A)
      → ((x : A) → every p (f x) ≡ true)
      → every p (each f xs) ≡ true
  every-each f [] h = refl
  every-each f (x ∷ xs) h = ground (arith, h x, every-each f xs h)

  pub every-when_some {ℓ} :
      {A : Type ℓ} (o : Option A) (h : A → Html E)
      → ((a : A) → every p (h a) ≡ true)
      → every p (when_some o h) ≡ true
  every-when_some none h k = refl
  every-when_some (some a) h k = k a

  pub every-when_text : (t : Text) (h : Html E) → every p h ≡ true → every p (when_text t h) ≡ true
  every-when_text [] h k = refl
  every-when_text (u ∷ t) h k = k
