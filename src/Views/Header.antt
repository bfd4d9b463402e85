-- ===== src/Views/Header.antt =====
-- studio/src/components: StudioHeader.tsx and DeleteUserDialog.tsx. The theme is an argument.
use mathlib.Core.Option
use beast_db.Prelude.{
  ℕ, Bool, true, false, Option, none, some, List, [], ◌∷◌, or_else, take, if◌then◌else◌,
}
use beast_db.Js.Text.{Text, units}
use beast_db.Js.Case.{CaseMap, to_upper}
use beast_db.Js.Json.{Json, str}
use beast_db.Js.BigInt.{to_decimal}
use beast_db.Types.{SessionUser, UserRole, admin, viewer}
use beast_db.Display.{or_text}
use beast_db.Views.Html.{
  Html, click, disabled, attr, nothing, say, ◌⊕◌, el, with_attrs, lit, prop, when_some,
}
use beast_db.Views.Profile.{role_badge}

pub data StudioView : Type 0 where
  overview explorer operations : StudioView

abbrev same_view : StudioView → StudioView → Bool
same_view overview overview = true
same_view explorer explorer = true
same_view operations operations = true
same_view _ _ = false

pub record HeaderProps (E : Type 0) : Type 0 where
  pub view : StudioView
  pub set_view : StudioView → List E
  pub user : Option SessionUser
  pub busy : Bool
  pub on_refresh : List E
  pub on_open_tokens : Option (List E)
  pub dark : Bool
  pub toggle : List E

-- user.role as a text
abbrev role_json : UserRole → Json
role_json admin = str (units "admin")
role_json viewer = str (units "viewer")

module _ {E : Type 0} where
  tab : HeaderProps E → StudioView → Text → Html E
  tab p view name =
      with_attrs "button"
        (attr (units "aria-current") (if same_view p.view view then some (units "page") else none)
          ∷ click (p.set_view view)
          ∷ [])
        (say name)

  module _ ⦃c : CaseMap⦄ where
    account : Option SessionUser → Html E
    unfolding to_upper role_badge
    account user =
        let name = or_else (Option.map (λ u. u.username) user) [] in
        el "div" (
          with_attrs "div" (prop "aria-hidden" (units "true") ∷ [])
            (say (to_upper (take 2 (or_text name (units "??")))))
          ⊕ with_attrs "span" (prop "title" (or_text name (units "Session unavailable")) ∷ [])
              (say (or_text name (units "Account")))
          ⊕ role_badge (Option.map (λ u. role_json u.role) user))

    unfoldable pub studio_header : HeaderProps E → Html E
    unfolding tab account
    studio_header p = el "header" (
        el "div" (
          el "div" (el "BeastDBLogo" nothing)
          ⊕ with_attrs "nav" (prop "aria-label" (units "Main navigation") ∷ []) (
              tab p overview (units "Overview")
              ⊕ tab p explorer (units "Explorer")
              ⊕ tab p operations (units "Operations"))
          ⊕ el "div" (
              when_some p.on_open_tokens (λ open_tokens.
                with_attrs "Button"
                  (click open_tokens
                    ∷ prop "aria-label" (units "API Access Tokens")
                    ∷ prop "title" (units "API Access Tokens")
                    ∷ [])
                  nothing)
              ⊕ with_attrs "Button"
                  (click p.on_refresh
                    ∷ disabled p.busy
                    ∷ prop "aria-label" (units "Refresh data")
                    ∷ prop "title" (units "Refresh data")
                    ∷ [])
                  nothing
              ⊕ with_attrs "Button"
                  (click p.toggle
                    ∷ prop "aria-label"
                        (if p.dark then units "Use light theme" else units "Use dark theme")
                    ∷ prop "title" (units "Toggle theme")
                    ∷ [])
                  nothing
              ⊕ el "div" nothing
              ⊕ account p.user
              ⊕ with_attrs "form"
                  (prop "action" (units "/logout") ∷ prop "method" (units "POST") ∷ [])
                  (with_attrs "Button"
                    (prop "type" (units "submit")
                      ∷ prop "aria-label" (units "Sign out")
                      ∷ prop "title" (units "Sign out")
                      ∷ [])
                    nothing))))

  -- null as a child is nothing.
  unfoldable pub delete_user_dialog : Option ℕ → List E → List E → Html E
  unfolding to_decimal
  delete_user_dialog user_hash on_confirm on_close = el "AlertDialog" (
      el "AlertDialogContent" (
        el "div" (
          el "div" nothing
          ⊕ el "div" (
              el "AlertDialogTitle" (lit "Cascade Delete User Account")
              ⊕ el "p" (lit "Target User Hash: " ⊕ when_some user_hash (λ n. say (to_decimal n)))))
        ⊕ el "AlertDialogDescription" (
            lit
              "This operation purges the primary user credential record (`0x01`) and atomically seeks and deletes all associated records (profiles, tokens, relationships) across the entire keyspace.")
        ⊕ el "div" (
            el "AlertDialogCancel" (with_attrs "Button" (click on_close ∷ []) (lit "Cancel"))
            ⊕ el "AlertDialogAction"
                (with_attrs "Button" (click on_confirm ∷ []) (lit "Purge User & Records")))))
