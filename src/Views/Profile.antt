-- ===== src/Views/Profile.antt =====
-- studio/src/components: RoleBadge.tsx, UserCollectionSection.tsx and UserProfilePanel.tsx. The
-- state of useUserContext is an argument of the panel.
pub mod Calls
use beast_db.Prelude.{
  ℕ, ◌+◌, Bool, true, not, ◌&&◌, Option, none, some, List, [], ◌∷◌, ◌++◌, length, take, ltb, ◌==◌,
  if◌then◌else◌,
}
use beast_db.Js.Text.{Text, units, same}
use beast_db.Js.Case.{CaseMap, to_upper}
use beast_db.Js.Json.{Json, str, get, to_text, truthy}
use beast_db.Js.BigInt.{to_decimal}
use beast_db.Types.{UniversalRecord}
use beast_db.Hooks.UserContext.{UserCollection, Context}
use beast_db.Views.Html.{
  Html, Attr, click, nothing, say, ◌⊕◌, el, with_attrs, button, lit, prop, when, when_text,
  when_some, each,
}
use beast_db.Views.Formats.{Formats, format_date_relative}
use beast_db.Views.Values.{child, when_value}

-- fields?.[name]
abbrev pub field_of : UniversalRecord → Text → Option Json
field_of r name = elim r.fields [ none ↦ none | some fields ↦ get fields name ]

-- a || b
abbrev pub truthy_or : Option Json → Json → Json
truthy_or none d = d
truthy_or (some j) d = if truthy j then j else d

-- String(name).slice(0, 2).toUpperCase()
initials : ⦃c : CaseMap⦄ → UniversalRecord → Text
unfolding to_upper
initials r =
    let name =
      truthy_or (field_of r (units "username"))
        (truthy_or (field_of r (units "name")) (str (units "?"))) in
    to_upper (take 2 (to_text name))

total_related : List UserCollection → ℕ
total_related [] = 0
total_related (x ∷ xs) = length x.records + total_related xs

module _ {E : Type 0} where
  role_of : Text → Html E
  role_of role =
      if same role (units "admin")
      then el "span" (lit "ADMIN")
      else if same role (units "viewer")
      then el "span" (lit "VIEWER")
      else nothing

  -- Only a text is equal to a text.
  unfoldable pub role_badge : Option Json → Html E
  unfolding role_of
  role_badge none = nothing
  role_badge (some (str role)) = role_of role
  role_badge (some j) = nothing

  collection_row : (UniversalRecord → List E) → UniversalRecord → Html E
  collection_row on_select r = el "li" (
      button (on_select r) (
        when_some r.cover_url
          (λ url. when_text url (with_attrs "img" (prop "src" url ∷ prop "alt" [] ∷ []) nothing))
        ⊕ el "div" (
            el "p" (say r.primary_label)
            ⊕ when_text r.secondary_label (el "p" (say r.secondary_label)))
        ⊕ when_value r.status (λ status. el "span" (child status))))

  unfoldable pub user_collection_section : (UniversalRecord → List E) → UserCollection → Html E
  unfolding collection_row to_decimal
  user_collection_section on_select x = el "details" (
      el "summary" (el "span" (say x.label) ⊕ el "span" (say (to_decimal (length x.records))))
      ⊕ el "ul" (each (collection_row on_select) x.records))

pub record ProfileProps (E : Type 0) : Type 0 where
  pub shown : UniversalRecord
  pub can_write : Bool
  pub on_delete : Text → List E
  pub on_delete_user : ℕ → List E
  pub on_select : UniversalRecord → List E
  pub context : Context

module _ {E : Type 0} ⦃c : CaseMap⦄ (f : Formats) where
  identity : UniversalRecord → Html E
  unfolding initials role_badge format_date_relative
  identity r =
      let name = truthy_or (field_of r (units "username")) (str r.primary_label) in
      el "div" (
        el "div" (say (initials r))
        ⊕ el "div" (
            el "div" (el "h2" (child name) ⊕ role_badge (field_of r (units "role")))
            ⊕ when_value (field_of r (units "email")) (λ email. el "p" (child email))
            ⊕ when_value (field_of r (units "createdAt"))
                (λ date. el "p" (lit "Joined " ⊕ say (format_date_relative f (to_text date))))))

  chips : Context → Html E
  unfolding total_related to_decimal
  chips x = el "div" (
      each
        (λ y.
          el "span" (say (y.label ++ units " ") ⊕ el "span" (say (to_decimal (length y.records)))))
        x.collections
      ⊕ when (not x.ready) (el "span" (lit "Loading…"))
      ⊕ when (x.ready && (total_related x.collections == 0))
          (el "span" (lit "No related records found.")))

  -- A record always has its user hash.
  unfoldable pub user_profile_panel : ProfileProps E → Html E
  unfolding identity chips user_collection_section
  user_profile_panel p =
      let r = p.shown in
      el "div" (
        identity r
        ⊕ chips p.context
        ⊕ when (ltb 0 (length p.context.collections)) (
            el "section" (
              el "h3" (lit "Library")
              ⊕ each (user_collection_section p.on_select) p.context.collections))
        ⊕ when p.can_write (
            el "div" (
              with_attrs "Button" (click (p.on_delete r.key_str) ∷ [])
                (lit "Delete Credential Only")
              ⊕ with_attrs "Button" (click (p.on_delete_user r.user_hash) ∷ [])
                  (lit "Cascade Purge User & All Records"))))
