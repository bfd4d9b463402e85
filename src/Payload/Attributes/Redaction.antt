-- ===== src/Payload/Attributes/Redaction.antt =====
-- data-parser.ts: REDACTED_KEYS, in the fields and in the attributes.
use beast_db.Prelude.{
  ◌≤◌, ◌≡◌, refl, ◌⊎◌, inl, inr, Bool, true, false, ◌||◌, none, List, [], ◌∷◌, ◌++◌, arith, ltb,
  length, length-append, All, All-append, if◌then◌else◌, Bool-cases,
}
use beast_db.Js.Text.{Text, units, same, same_iff, same_refl}
use beast_db.Js.Json.{Json, Fields, null, bool, num, str, arr, obj, end, field, entries, get}
use beast_db.Types.{Attribute}
use beast_db.Payload.Attributes.{
  is_redacted, visible_fields, is_unsummarised, attribute, is_object_type, push, push_nested,
  push_property, summarise,
}

-- A property is among the fields for display exactly when its name is not redacted, and then with
-- its own value.
pub get-visible_fields :
    (o : List (Text × Json)) (k : Text)
    → get (visible_fields o) k ≡ (if is_redacted k then none else get o k)
unfolding visible_fields
get-visible_fields [] k = ground arith
get-visible_fields ((j, v) ∷ o) k = elim (Bool-cases (same j k)) [
  | inl e ↦
      let here : j ≡ k = (same_iff j k).0 e in
      rw (here) (ground (arith, get-visible_fields o k, same_iff j k, same_refl k))
  | inr e ↦ ground (arith, get-visible_fields o k)
]

pub visible_fields-All :
    (o : List (Text × Json)) → All (λ e. is_redacted e.0 ≡ false) (visible_fields o)
unfolding visible_fields
visible_fields-All [] = tt
visible_fields-All ((k, v) ∷ o) = elim (Bool-cases (is_redacted k)) [
  | inl e ↦ rw e (visible_fields-All o)
  | inr e ↦ rw e (e, visible_fields-All o)
]

-- The property is one of the object's.
abbrev pub In : Text × Json → List (Text × Json) → Type 0
In e [] = ⊥
In e (x ∷ xs) = (x ≡ e) ⊎ In e xs

In-later :
    (x : Text × Json) (xs ys : List (Text × Json))
    → All (λ e. In e xs) ys
    → All (λ e. In e (x ∷ xs)) ys
In-later x xs [] h = tt
In-later x xs (y ∷ ys) (a, h) = (inr a, In-later x xs ys h)

In-itself : (xs : List (Text × Json)) → All (λ e. In e xs) xs
In-itself [] = tt
In-itself (x ∷ xs) = (inl refl, In-later x xs xs (In-itself xs))

-- The attribute of a property: an array has its name, any other value is shown by its text, and of
-- a nested object one property is shown that is no object.
abbrev pub IsFrom : Text → Json → Attribute → Type 0
IsFrom k (obj o) a =
    (e : Text × Json) × In e (entries o)
    × (is_object_type e.1 ≡ false)
    × (a ≡ attribute (k ++ b'.' ∷ e.0) e.1)
IsFrom k (arr js) a = (a.key ≡ k) × (a.type ≡ units "object")
IsFrom k v a = a ≡ attribute k v

-- The attribute comes from a property of the document which is neither redacted nor left out.
abbrev pub IsNamed : List (Text × Json) → Attribute → Type 0
IsNamed document a =
    (e : Text × Json) × In e document
    × (is_redacted e.0 ≡ false)
    × (is_unsummarised e.0 ≡ false)
    × IsFrom e.0 e.1 a

module _ (P : Attribute → Type 0) where
  -- What holds of the attributes and of the new one holds after a push, and there are at most five.
  record Few (list : List Attribute) : Type 0 where
    every : All P list
    at_most : length list ≤ 5

  push-Few : (a : Attribute) (list : List Attribute) → P a → Few list → Few (push a list)
  unfolding push
  push-Few a list p h = elim (Bool-cases (ltb (length list) 5)) [
    | inl e ↦ rw e record {
      every = All-append P list (a ∷ []) h.every (p, tt);
      at_most = ground (arith, length-append list (a ∷ []));
    }
    | inr e ↦ rw e h
  ]

  Few-if : (b : Bool) (x y : List Attribute) → Few x → Few y → Few (if b then x else y)
  Few-if true x y h k = h
  Few-if false x y h k = k

module _ (P : Attribute → Type 0) where
  push_nested-Few :
      (k : Text) (o : List (Text × Json)) (list : List Attribute)
      → All (λ e. is_object_type e.1 ≡ false → P (attribute (k ++ b'.' ∷ e.0) e.1)) o
      → Few P list
      → Few P (push_nested k o list)
  unfolding push_nested
  push_nested-Few k [] list p h = h
  push_nested-Few k ((sub, v) ∷ o) list (p, ps) h = elim (Bool-cases (is_object_type v)) [
    | inl e ↦ rw e (push_nested-Few k o list ps h)
    | inr e ↦ rw e (push_nested-Few k o _ ps (push-Few P _ list (p e) h))
  ]

module _ (document : List (Text × Json)) where
  nested-All :
      (k : Text) (o : Fields) (es : List (Text × Json))
      → ((a : Attribute) → IsFrom k (obj o) a → IsNamed document a)
      → All (λ e. In e (entries o)) es
      → All
          (λ e. is_object_type e.1 ≡ false → IsNamed document (attribute (k ++ b'.' ∷ e.0) e.1))
          es
  nested-All k o [] p h = tt
  nested-All k o (e ∷ es) p (i, is) = (λ no. p _ (e, i, no, refl), nested-All k o es p is)

  push_property-Few :
      (k : Text) (v : Json) (list : List Attribute)
      → ((a : Attribute) → IsFrom k v a → IsNamed document a)
      → Few (IsNamed document) list
      → Few (IsNamed document) (push_property k v list)
  unfolding push_property
  push_property-Few k (obj o) list p h =
      push_nested-Few (IsNamed document) k (entries o) list
        (nested-All k o (entries o) p (In-itself (entries o))) h
  push_property-Few k (arr js) list p h = push-Few _ _ list (p _ (refl, refl)) h
  push_property-Few k null list p h = push-Few _ _ list (p _ refl) h
  push_property-Few k (bool b) list p h = push-Few _ _ list (p _ refl) h
  push_property-Few k (num n) list p h = push-Few _ _ list (p _ refl) h
  push_property-Few k (str s) list p h = push-Few _ _ list (p _ refl) h

  Few-shown :
      (k : Text) (v : Json) (list : List Attribute)
      → In (k, v) document
      → Few (IsNamed document) list
      → Few
          (IsNamed document)
          (if is_redacted k || is_unsummarised k then list else push_property k v list)
  Few-shown k v list i h = elim (Bool-cases (is_redacted k)) [
    | inl e ↦ rw e h
    | inr e ↦ elim (Bool-cases (is_unsummarised k)) [
      | inl f ↦ rw (e, f) h
      | inr f ↦ rw (e, f) (push_property-Few k v list (λ a from. ((k, v), i, e, f, from)) h)
    ]
  ]

  summarise-Few :
      (o : List (Text × Json)) (list : List Attribute)
      → All (λ e. In e document) o
      → Few (IsNamed document) list
      → Few (IsNamed document) (summarise o list)
  unfolding summarise
  summarise-Few [] list i h = h
  summarise-Few ((k, v) ∷ o) list (i, is) h = summarise-Few o _ is (Few-shown k v list i h)

pub summarise_bounds :
    (o : List (Text × Json)) → All (IsNamed o) (summarise o []) × (length (summarise o []) ≤ 5)
summarise_bounds o =
    let few = summarise-Few o o [] (In-itself o) (record { every = tt; at_most = omega arith }) in
    (few.every, few.at_most)

-- The names inside a nested object are not looked at: a document whose one property has a name
-- that is summarised, and holds an object with one text under a redacted name, has that text as
-- an attribute.
pub summarise_nested_secret :
    (owner sub secret : Text)
    → is_redacted owner ≡ false
    → is_unsummarised owner ≡ false
    → is_redacted sub ≡ true
    → summarise ((owner, obj (field sub (str secret) end)) ∷ []) []
      ≡ record { key = owner ++ b'.' ∷ sub; value = secret; type = units "string" } ∷ []
unfolding summarise push_property push_nested
summarise_nested_secret owner sub secret p q r = rw (p, q)
