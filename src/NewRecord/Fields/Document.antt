-- ===== src/NewRecord/Fields/Document.antt =====
-- RecordFields.tsx: the document of buildFields.
use beast_db.Prelude.{
  ◌≡◌, ◌⊎◌, refl, ◌∙◌, false, Option, none, some, List, [], ◌∷◌, arith, All, is_some, if◌then◌else◌,
  Bool-cases, inl, inr,
}
use beast_db.Js.Text.{Text, same, same_iff, same_refl, trim}
use beast_db.Js.Json.{Json, get}
use beast_db.Js.Platform.{Platform}
use beast_db.Hooks.Api.{Result, failed, done}
use beast_db.NewRecord.Fields.{
  Field, index, comes_before, add_property, typed_value, is_blank, add_typed, add_field, and_then,
  collect_fields,
}

absent :
    (r k : Text) (w : Json) (o : List (Text × Json))
    → get ((r, w) ∷ o) k ≡ none
    → (same r k ≡ false) × (get o k ≡ none)
absent r k w o h = elim (Bool-cases (same r k)) [
  | inl e ↦ let bad = rw e at h in cc
  | inr e ↦ (e, rw e at h)
]

get-add_property :
    (k : Text) (v : Json) (o : List (Text × Json)) (q : Text)
    → get o k ≡ none
    → get (add_property k v o) q ≡ (if same k q then some v else get o q)
unfolding add_property
get-add_property k v [] q h = refl
get-add_property k v ((r, w) ∷ o) q h = elim (Bool-cases (comes_before (index r) (index k))) [
  | inr e ↦ rw (e, add_property) refl
  | inl e ↦ elim (Bool-cases (same r q)) [
    | inl f ↦
        rw (e, add_property, f)
          (ground (arith, same_iff k q, same_iff r q, same_iff r k, (absent r k w o h).0))
    | inr f ↦ rw (e, add_property, f) (get-add_property k v o q ((absent r k w o h).1))
  ]
]

Result-cases :
    {A : Type 0} (r : Result A) → ((m : Text) × (r ≡ failed m)) ⊎ ((a : A) × (r ≡ done a))
Result-cases (failed m) = inl (m, refl)
Result-cases (done a) = inr (a, refl)

none-of : {A : Type 0} (o : Option A) → is_some o ≡ false → o ≡ none
none-of none h = refl
none-of (some a) h = cc

add_field-done :
    (js : Platform) (f : Field) (o p : List (Text × Json))
    → add_field js f o ≡ done p
    → (j : Json) × (typed_value js f ≡ done j)
      × (get o f.name ≡ none)
      × (p ≡ add_property f.name j o)
unfolding add_field add_typed
add_field-done js f o p h = elim (Bool-cases (is_blank (trim f.name))) [
  | inl e ↦ let bad = rw (e, add_field) at h in cc
  | inr e ↦ elim (Bool-cases (is_some (get o f.name))) [
    | inl g ↦ let bad = rw (e, g, add_field) at h in cc
    | inr g ↦ elim (Result-cases (typed_value js f)) [
      | inl (m, t) ↦ let bad = rw (e, g, t, add_field) at h in cc
      | inr (j, t) ↦ let made = rw (e, g, t, add_field) at h in (j, t, none-of (get o f.name) g, cc)
    ]
  ]
]

-- What is there stays.
collect_fields-keeps :
    (js : Platform) (fs : List Field) (o p : List (Text × Json)) (k : Text) (v : Json)
    → collect_fields js fs o ≡ done p
    → get o k ≡ some v
    → get p k ≡ some v
unfolding collect_fields
collect_fields-keeps js [] o p k v h g = let same_end : o ≡ p = cc in rw (← same_end) g
collect_fields-keeps js (f ∷ fs) o p k v h g = elim (Result-cases (add_field js f o)) [
  | inl (m, e) ↦ let bad = rw (e, collect_fields, and_then) at h in cc
  | inr (q, e) ↦
      let rest = rw (e, collect_fields, and_then) at h in
      let (j, t, fresh, made) = add_field-done js f o q e in
      collect_fields-keeps js fs q p k v rest
        (rw made (get-add_property f.name j o k fresh ∙ ground (arith, same_iff f.name k)))
]

-- When a document is built, each property of the form is in it under its name, with the value that
-- its type makes of it.
pub collect_fields-get :
    (js : Platform) (fs : List Field) (o p : List (Text × Json))
    → collect_fields js fs o ≡ done p
    → All (λ f. (j : Json) × (typed_value js f ≡ done j) × (get p f.name ≡ some j)) fs
unfolding collect_fields
collect_fields-get js [] o p h = tt
collect_fields-get js (f ∷ fs) o p h = elim (Result-cases (add_field js f o)) [
  | inl (m, e) ↦ let bad = rw (e, collect_fields, and_then) at h in cc
  | inr (q, e) ↦
      let rest = rw (e, collect_fields, and_then) at h in
      let (j, t, fresh, made) = add_field-done js f o q e in
      (
        (
          j,
          t,
          collect_fields-keeps js fs q p f.name j rest (
              rw made
                (get-add_property f.name j o f.name fresh ∙ ground (arith, same_refl f.name))),
        ),
        collect_fields-get js fs q p rest,
      )
]
