-- ===== src/ApiTokens/View.antt =====
-- ApiTokensDialog.tsx: what the dialog renders.
use beast_db.Prelude.{not, List, [], ◌∷◌}
use beast_db.Js.Text.{units}
use beast_db.Types.{ApiTokenItem}
use beast_db.ApiTokens.{Dialog}
use beast_db.ApiTokens.Events.{
  Event, start_creating, cancel, submit, copy, type_name, choose_role, delete,
}
use beast_db.Views.Html as Html
use beast_db.Views.Html.{
  Html, Attr, click, change, nothing, say, ◌⊕◌, el, with_attrs, button, lit, prop, when, when_some,
  when_text, each, either,
}
use beast_db.Views.Formats.{Formats}

secret : Dialog → Html Event
secret d = when_some d.new_secret (λ t. when_text t (
    el "div" (
      el "div" (
        el "span" (lit "Copy Your New Token")
        ⊕ el "span" (lit "You won't be able to see it again!"))
      ⊕ el "div" (el "code" (say t) ⊕ with_attrs "Button" (click (copy ∷ []) ∷ []) nothing))))

form : Dialog → Html Event
form d = when d.creating (
    with_attrs "form" (Html.submit (submit ∷ []) ∷ []) (
      el "div" (el "span" (lit "Generate API Token") ⊕ button (cancel ∷ []) nothing)
      ⊕ el "div" (
          with_attrs "input"
            (prop "placeholder" (units "Token name (e.g. Unfinished Backend)")
              ∷ prop "value" d.name
              ∷ change (λ s. type_name s ∷ [])
              ∷ [])
            nothing
          ⊕ with_attrs "select" (prop "value" d.role ∷ change (λ s. choose_role s ∷ []) ∷ []) (
              with_attrs "option" (prop "value" (units "admin") ∷ []) (lit "Admin")
              ⊕ with_attrs "option" (prop "value" (units "viewer") ∷ []) (lit "Viewer")))
      ⊕ el "div" (
          with_attrs "Button" (click (cancel ∷ []) ∷ []) (lit "Cancel")
          ⊕ with_attrs "Button" (prop "type" (units "submit") ∷ []) (lit "Create"))))

module _ (f : Formats) where
  token_row : ApiTokenItem → Html Event
  token_row t = el "div" (
      el "div" (
        el "div" (el "span" (say t.name) ⊕ el "span" (say t.role))
        ⊕ el "div" (
            el "code" (say t.masked_token)
            ⊕ el "span" (lit "•")
            ⊕ el "span" (say (f.date_text t.created_at))))
      ⊕ with_attrs "Button" (click (delete t.id ∷ []) ∷ prop "title" (units "Revoke Token") ∷ [])
          nothing)

  token_list : List ApiTokenItem → Html Event
  unfolding token_row
  token_list [] = el "div" (
      el "p" (lit "No API tokens configured")
      ⊕ el "p" (
          lit
            "Generate a token to allow services like Unfinished or scripts to connect securely via gRPC."))
  token_list (t ∷ ts) = each token_row (t ∷ ts)

  unfoldable pub tokens_dialog : Dialog → Html Event
  unfolding secret form token_list
  tokens_dialog d = el "Dialog" (
      el "DialogContent" (
        el "div" (
          el "div" (
            el "div" nothing
            ⊕ el "div" (
                el "DialogTitle" (lit "API Access Tokens")
                ⊕ el "p" (lit "Persistent database bearer tokens (Partition 0x05)")))
          ⊕ when (not d.creating)
              (with_attrs "Button" (click (start_creating ∷ []) ∷ []) (lit "New Token")))
        ⊕ secret d
        ⊕ form d
        ⊕ el "div"
            (either d.loading (el "p" (lit "Loading active tokens...")) (token_list d.tokens))))
