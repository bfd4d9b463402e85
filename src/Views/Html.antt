-- ===== src/Views/Html.antt =====
-- What a component of the Studio renders: React's elements, fragments and texts. A handler is the
-- list of the calls of functions of its props that it makes. Icons, class names, and the attributes
-- `size` and `variant` are left out, and an element of components/ui stands under its name.
pub mod Laws
use Prim.Native.String.{String}
use beast_db.Prelude.{
  Bool, true, false, ◌&&◌, ◌||◌, Option, none, some, List, [], ◌∷◌, ◌++◌, all, if◌then◌else◌,
}
use beast_db.Js.Text.{Text, units}

pub data Attr (E : Type 0) : Type 0 where
  click : List E → Attr E
  submit : List E → Attr E
  change : (Text → List E) → Attr E
  disabled : Bool → Attr E
  -- An attribute whose value is undefined is not there.
  attr : Text → Option Text → Attr E

infixr 20 ◌⊕◌
pub data Html (E : Type 0) : Type 0 where
  nothing : Html E
  say : Text → Html E
  element : Text → List (Attr E) → Html E → Html E
  ◌⊕◌ : Html E → Html E → Html E
  -- An object as a child, at which React throws.
  invalid : Html E

module _ {E : Type 0} where
  -- <tag>…</tag>, with no attributes that matter
  abbrev pub el : String → Html E → Html E
  el tag body = element (units tag) [] body

  abbrev pub with_attrs : String → List (Attr E) → Html E → Html E
  with_attrs tag attrs body = element (units tag) attrs body

  abbrev pub button : List E → Html E → Html E
  button calls body = element (units "button") (click calls ∷ []) body

  abbrev pub lit : String → Html E
  lit s = say (units s)

  abbrev pub prop : String → Text → Attr E
  prop name value = attr (units name) (some value)

  -- {test && html}
  abbrev pub when : Bool → Html E → Html E
  when b h = if b then h else nothing

  -- {text && html}
  abbrev pub when_text : Text → Html E → Html E
  when_text [] h = nothing
  when_text (u ∷ s) h = h

  -- {value && html}, for a value that is an object
  abbrev pub when_some {ℓ} : {A : Type ℓ} → Option A → (A → Html E) → Html E
  when_some none f = nothing
  when_some (some a) f = f a

  -- {test ? a : b}
  abbrev pub either : Bool → Html E → Html E → Html E
  either b x y = if b then x else y

  -- {list.map(f)}
  abbrev pub each {ℓ} : {A : Type ℓ} → (A → Html E) → List A → Html E
  each f [] = nothing
  each f (x ∷ xs) = f x ⊕ each f xs

  abbrev pub is_disabled : List (Attr E) → Bool
  is_disabled [] = false
  is_disabled (disabled b ∷ attrs) = b || is_disabled attrs
  is_disabled (click calls ∷ attrs) = is_disabled attrs
  is_disabled (submit calls ∷ attrs) = is_disabled attrs
  is_disabled (change f ∷ attrs) = is_disabled attrs
  is_disabled (attr name value ∷ attrs) = is_disabled attrs

  abbrev pub handlers : List (Attr E) → List E
  handlers [] = []
  handlers (click calls ∷ attrs) = calls ++ handlers attrs
  handlers (submit calls ∷ attrs) = calls ++ handlers attrs
  handlers (change f ∷ attrs) = handlers attrs
  handlers (disabled b ∷ attrs) = handlers attrs
  handlers (attr name value ∷ attrs) = handlers attrs

  -- The calls that a click or a submit can make, in the order of the page.
  abbrev pub calls : Html E → List E
  calls nothing = []
  calls (say s) = []
  calls invalid = []
  calls (element tag attrs body) = (if is_disabled attrs then [] else handlers attrs) ++ calls body
  calls (a ⊕ b) = calls a ++ calls b

  abbrev pub every_handler : (E → Bool) → List (Attr E) → Bool
  every_handler p [] = true
  every_handler p (click calls ∷ attrs) = all p calls && every_handler p attrs
  every_handler p (submit calls ∷ attrs) = all p calls && every_handler p attrs
  every_handler p (change f ∷ attrs) = every_handler p attrs
  every_handler p (disabled b ∷ attrs) = every_handler p attrs
  every_handler p (attr name value ∷ attrs) = every_handler p attrs

  -- Does each of those calls pass the test?
  abbrev pub every : (E → Bool) → Html E → Bool
  every p nothing = true
  every p (say s) = true
  every p invalid = true
  every p (element tag attrs body) = (is_disabled attrs || every_handler p attrs) && every p body
  every p (a ⊕ b) = every p a && every p b

  -- Does rendering throw?
  abbrev pub throws : Html E → Bool
  throws nothing = false
  throws (say s) = false
  throws invalid = true
  throws (element tag attrs body) = throws body
  throws (a ⊕ b) = throws a || throws b
