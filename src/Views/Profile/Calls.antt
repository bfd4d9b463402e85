-- ===== src/Views/Profile/Calls.antt =====
-- The calls of a user's panel.
use beast_db.Prelude.{
  ◌≡◌, refl, Bool, true, false, Option, none, some, List, [], ◌∷◌, ◌++◌, all, arith, length,
}
use beast_db.Js.Text.{units}
use beast_db.Js.Case.{CaseMap}
use beast_db.Js.Json.{Json, null, bool, num, str, arr, obj, to_text}
use beast_db.Types.{UniversalRecord}
use beast_db.Hooks.UserContext.{UserCollection, Context}
use beast_db.Js.BigInt.{to_decimal}
use beast_db.Views.Html.{◌⊕◌, say, nothing, el, lit, with_attrs, prop, every, when_some, when_text}
use beast_db.Views.Html.Laws.{every-each, every-when_some, every-when_text}
use beast_db.Views.Formats.{Formats, format_date_relative}
use beast_db.Views.Values.{child}
use beast_db.Views.Values.Calls.{every-child, every-when_value}
use beast_db.Views.Profile.{
  field_of, truthy_or, role_of, role_badge, collection_row, user_collection_section, ProfileProps,
  identity, chips, user_profile_panel,
}

module _ {E : Type 0} (p : E → Bool) where
  every-role_badge : (v : Option Json) → every p (role_badge {E = E} v) ≡ true
  unfolding role_badge role_of
  every-role_badge none = refl
  every-role_badge (some (str role)) = ground arith
  every-role_badge (some null) = refl
  every-role_badge (some (bool b)) = refl
  every-role_badge (some (num n)) = refl
  every-role_badge (some (arr js)) = refl
  every-role_badge (some (obj fs)) = refl

  every-cover :
      (r : UniversalRecord)
      → every p (
          when_some r.cover_url
            (λ url. when_text url (with_attrs "img" (prop "src" url ∷ prop "alt" [] ∷ []) nothing)))
        ≡ true
  every-cover r = every-when_some p r.cover_url _ (λ url. every-when_text p url _ refl)

  module _ (on_select : UniversalRecord → List E)
      (h : (r : UniversalRecord) → all p (on_select r) ≡ true) where
    every-collection_row : (r : UniversalRecord) → every p (collection_row on_select r) ≡ true
    unfolding collection_row
    every-collection_row r = ground (
      arith,
      h r,
      every-cover r,
      every-when_text p r.secondary_label (el "p" (say r.secondary_label)) refl,
      every-when_value p r.status (λ status. el "span" (child status)) (every-child p),
    )

    pub every-user_collection_section :
        (x : UserCollection) → every p (user_collection_section on_select x) ≡ true
    unfolding user_collection_section
    every-user_collection_section x =
        ground (arith, every-each p (collection_row on_select) x.records every-collection_row)

module _ {E : Type 0} ⦃c : CaseMap⦄ (p : E → Bool) (f : Formats) where
  every-identity : (r : UniversalRecord) → every p (identity {E = E} f r) ≡ true
  unfolding identity
  every-identity r = ground (
    arith,
    every-child p (truthy_or (field_of r (units "username")) (str r.primary_label)),
    every-role_badge p (field_of r (units "role")),
    every-when_value p (field_of r (units "email")) (λ email. el "p" (child email)) (every-child p),
    every-when_value p (field_of r (units "createdAt"))
        (λ date. el "p" (lit "Joined " ⊕ say (format_date_relative f (to_text date))))
        (λ date. refl),
  )

  every-chips : (x : Context) → every p (chips {E = E} f x) ≡ true
  unfolding chips
  every-chips x = ground (
    arith,
    every-each p
        (λ y.
          el "span" (say (y.label ++ units " ") ⊕ el "span" (say (to_decimal (length y.records)))))
        x.collections (λ y. refl),
  )

module _ {E : Type 0} ⦃c : CaseMap⦄ (p : E → Bool) (f : Formats) (r : ProfileProps E)
    (selects : (s : UniversalRecord) → all p (r.on_select s) ≡ true)
    (reads : r.can_write ≡ false) where
  pub every-user_profile_panel : every p (user_profile_panel f r) ≡ true
  unfolding user_profile_panel
  every-user_profile_panel = ground (
    arith,
    every-identity p f r.shown,
    every-chips p f r.context,
    every-each p (user_collection_section r.on_select) r.context.collections
        (every-user_collection_section p r.on_select selects),
  )
