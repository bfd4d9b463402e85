-- ===== src/Views/EditRecord.antt =====
-- studio/src/components/EditRecordPanel.tsx: the text of a record under change, and what the panel
-- renders. A save waits until onSave has settled.
pub mod Commits
use beast_db.Prelude.{
  ℕ, zero, suc, ◌+◌, Bool, true, false, ◌||◌, Option, none, some, List, [], ◌∷◌, ◌++◌, length,
  if◌then◌else◌, take_out,
}
use beast_db.Js.Text.{Text, units, trim, starts_with, utf8_size}
use beast_db.Js.BigInt.{to_decimal}
use beast_db.Js.Json.{Json}
use beast_db.Js.Platform.{Platform}
use beast_db.Types.{UniversalRecord}
use beast_db.Hooks.Api.{Result, failed, done}
use beast_db.Views.Html.{
  Html, Attr, click, change, disabled, nothing, say, ◌⊕◌, el, with_attrs, lit, prop, either,
}
use beast_db.Views.Formats.{Formats, format_bytes}
use beast_db.Views.Details.{formatted}

-- `saves` are the calls of onSave, `pending` how many of them wait.
pub record Panel : Type 0 where
  pub key_str : Text
  pub value : Text
  pub saving : Bool
  pub pending : ℕ
  pub saves : List (Text × Text)
  pub notices : List (Text × Bool)

abbrev notify : Text → Bool → Panel → Panel
notify message error s = record s { notices = s.notices ++ (message, error) ∷ [] }

module _ (js : Platform) where
  unfoldable pub open_panel : UniversalRecord → Panel
  unfolding formatted
  open_panel r = record {
    key_str = r.key_str;
    value = formatted js r.raw;
    saving = false;
    pending = 0;
    saves = [];
    notices = [];
  }

  set_formatted : Option Json → Panel → Panel
  set_formatted none s = notify (units "Cannot format: Value is not valid JSON.") true s
  set_formatted (some j) s =
      notify (units "JSON formatted.") false (record s { value = js.pretty j })

  unfoldable pub format_json : Panel → Panel
  unfolding set_formatted
  format_json s = set_formatted (js.parse_json s.value) s

  begins_json : Text → Bool
  begins_json s = starts_with s (units "{") || starts_with s (units "[")

  -- Is the value refused before anything is sent?
  unfoldable pub is_refused : Text → Bool
  unfolding begins_json trim starts_with
  is_refused value =
      if begins_json (trim value)
      then elim (js.parse_json (trim value)) [ none ↦ true | some j ↦ false ]
      else false

  -- handleSave, up to its await
  unfoldable pub handle_save : Panel → Panel
  unfolding is_refused
  handle_save s =
      if is_refused s.value
      then notify (units "Invalid JSON payload — fix syntax errors before committing.") true s
      else record s {
        saving = true;
        pending = s.pending + 1;
        saves = s.saves ++ (s.key_str, s.value) ∷ [];
      }

-- handleSave, from its await on
finish_save : Result (Unit {0}) → Panel → Panel
finish_save (failed m) s = record (notify m true s) { saving = false }
finish_save (done u) s = record (notify (units "Record updated successfully.") false s) {
  saving = false;
}

settled : ℕ → Result (Unit {0}) → Panel → Panel
unfolding finish_save
settled zero r s = s
settled (suc n) r s = finish_save r (record s { pending = n })

pub data Event : Type 0 where
  type_value : Text → Event
  click_format click_save : Event
  settle : Result (Unit {0}) → Event

module _ (js : Platform) where
  -- The button of the save is disabled while one is under way.
  unfoldable pub handle : Event → Panel → Panel
  unfolding format_json handle_save settled
  handle (type_value v) s = record s { value = v }
  handle click_format s = format_json js s
  handle click_save s = if s.saving then s else handle_save js s
  handle (settle r) s = settled s.pending r s

  unfoldable pub run : List Event → Panel → Panel
  unfolding handle
  run [] s = s
  run (e ∷ es) s = run es (handle e s)

pub data Action : Type 0 where
  set_value : Text → Action
  format save cancel : Action

unfoldable pub edit_record_panel : Formats → UniversalRecord → Panel → Html Action
unfolding format_bytes to_decimal utf8_size
edit_record_panel f r s = el "div" (
    el "div" (
      el "div" (
        el "div" (el "h2" (lit "Edit Record") ⊕ el "Badge" (say r.prefix_label))
        ⊕ el "p" (say (units "Key: " ++ r.key_str)))
      ⊕ with_attrs "Button"
          (click (format ∷ []) ∷ prop "title" (units "Prettify JSON indentation") ∷ [])
          (lit "Prettify"))
    ⊕ with_attrs "textarea"
        (prop "value" s.value
          ∷ change (λ v. set_value v ∷ [])
          ∷ prop "aria-label" (units "Record payload")
          ∷ [])
        nothing
    ⊕ el "div" (
        el "span" (
          say (
            to_decimal (length s.value)
            ++ units " characters · "
            ++ format_bytes f (utf8_size s.value)))
        ⊕ el "span" (lit "UTF-8 Slotted Page Payload"))
    ⊕ el "div" (
        with_attrs "Button" (click (cancel ∷ []) ∷ disabled s.saving ∷ []) (lit "Cancel")
        ⊕ with_attrs "Button" (click (save ∷ []) ∷ disabled s.saving ∷ [])
            (either s.saving (lit "Writing to WAL…") (lit "Commit Changes"))))
