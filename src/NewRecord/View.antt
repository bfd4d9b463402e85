-- ===== src/NewRecord/View.antt =====
-- NewRecordDialog.tsx: the preview of the key, and what the dialog renders.
use beast_db.Prelude.{ℕ, Bool, true, false, Option, none, some, List, [], ◌∷◌, ◌++◌, if◌then◌else◌}
use beast_db.Js.Text.{Text, units}
use beast_db.Js.BigInt.{to_decimal}
use beast_db.Js.Radix.{parse_radix}
use beast_db.Js.Regex.{test}
use beast_db.Keys.Registry.{Registries, hex_byte, get_registered_partitions}
use beast_db.Types.{PartitionMeta}
use beast_db.NewRecord.{
  KeyMode, raw, builder, hash, Dialog, Event, edit, submitted, resolved_key, key_re,
}
use beast_db.NewRecord.Properties.{record_fields}
use beast_db.Views.Html.{
  Html, click, submit, change, disabled, nothing, say, ◌⊕◌, el, with_attrs, button, lit, prop,
  when_some, when_text, each, either,
}

unfoldable pub preview_of : Text → Option Text
preview_of [] = none
preview_of (u ∷ k) = if test key_re (u ∷ k) then some (u ∷ k) else none

-- previewKey
unfoldable pub preview_key : Dialog → Option Text
unfolding preview_of resolved_key test key_re
preview_key d = preview_of (resolved_key d)

mode_button : Dialog → KeyMode → Text → Html Event
mode_button d mode name = button (edit (record d { key_mode = mode }) ∷ []) (say name)

-- The value of an option is a numeral.
abbrev set_prefix : Dialog → Text → List Event
set_prefix d v = elim (parse_radix 10 v) [
  | none ↦ []
  | some n ↦ edit (record d { prefix = n }) ∷ []
]

partition_option : ℕ × PartitionMeta → Html Event
unfolding to_decimal hex_byte
partition_option (prefix, x) =
    with_attrs "option" (prop "value" (to_decimal prefix) ∷ [])
      (say (units "0x" ++ hex_byte prefix ++ units " · " ++ x.label))

input : Text → Text → (Text → Dialog) → Html Event
input value placeholder set =
    with_attrs "Input"
      (prop "value" value ∷ prop "placeholder" placeholder ∷ change (λ v. edit (set v) ∷ []) ∷ [])
      nothing

key_builder : Registries → Dialog → Html Event
unfolding partition_option input parse_radix to_decimal get_registered_partitions
key_builder s d = el "div" (
    with_attrs "select" (prop "value" (to_decimal d.prefix) ∷ change (set_prefix d) ∷ [])
      (each partition_option (get_registered_partitions s))
    ⊕ el "div" (
        input d.domain (units "Domain / user hash seed") (λ v. record d { domain = v })
        ⊕ input d.item_id (units "Item ID / record seed") (λ v. record d { item_id = v }))
    ⊕ el "p" (lit "key = (prefix << 56) | (FNV28(domain) << 28) | FNV28(item)"))

key_inputs : Registries → Dialog → KeyMode → Html Event
unfolding key_builder input
key_inputs s d builder = key_builder s d
key_inputs s d hash =
    el "div"
      (input d.seed (units "Identifier to hash with FNV-1a 64-bit") (λ v. record d { seed = v }))
key_inputs s d raw = input d.key (units "e.g. 72057594037927936") (λ v. record d { key = v })

key_section : Registries → Dialog → Html Event
unfolding mode_button key_inputs preview_key
key_section s d = el "div" (
    el "p" (lit "64-bit Key")
    ⊕ el "div" (
        mode_button d builder (units "Partition Builder")
        ⊕ mode_button d hash (units "Hash Seed")
        ⊕ mode_button d raw (units "Raw Decimal"))
    ⊕ key_inputs s d d.key_mode
    ⊕ when_some (preview_key d)
        (λ k. el "div" (el "span" (lit "Key preview:") ⊕ el "span" (say k))))

tab : Dialog → Bool → Text → Html Event
tab d by_builder name =
    with_attrs "Tabs.Trigger" (click (edit (record d { by_builder = by_builder }) ∷ []) ∷ [])
      (say name)

-- Of the two tabs the one that is chosen is there. `uuid` is what crypto.randomUUID gives.
value_section : Text → Dialog → Html Event
unfolding tab record_fields
value_section uuid d =
    el "Tabs.List"
      (tab d false (units "Raw JSON / Payload") ⊕ tab d true (units "Structured Builder"))
    ⊕ either d.by_builder
        (record_fields (λ f. edit (record d { fields = f d.fields }) ∷ []) uuid d.fields)
        (el "label" (lit "Value · JSON, text, or token")
          ⊕ with_attrs "textarea"
              (prop "id" (units "record-value")
                ∷ prop "value" d.raw
                ∷ change (λ v. edit (record d { raw = v }) ∷ [])
                ∷ prop "placeholder" (units "{\"id\": 1, \"name\": \"beast\"}")
                ∷ [])
              nothing)

unfoldable pub new_record_dialog : Registries → Text → Dialog → Html Event
unfolding key_section value_section
new_record_dialog s uuid d = el "DialogContent" (
    el "DialogTitle" (lit "New Record")
    ⊕ el "DialogDescription"
        (lit "Add a key–value pair to BeastDB. Keys must be unique uint64 values.")
    ⊕ with_attrs "form" (submit (submitted ∷ []) ∷ []) (
        key_section s d
        ⊕ value_section uuid d
        ⊕ when_text d.error (with_attrs "p" (prop "role" (units "alert") ∷ []) (say d.error))
        ⊕ el "div" (
            with_attrs "Button"
              (click (edit (record d { is_open = false }) ∷ []) ∷ disabled d.busy ∷ [])
              (lit "Cancel")
            ⊕ with_attrs "Button" (prop "type" (units "submit") ∷ disabled d.busy ∷ [])
                (either d.busy (lit "Writing to WAL…") (lit "Create Record")))))
