-- ===== src/Views/Details.antt =====
-- studio/src/components: RecordDetails.tsx and RecordSheet.tsx. The panel of a user is given the
-- state of its hook, which calls onScanRange.
pub mod Calls
use beast_db.Prelude.{
  ℕ, Bool, true, false, not, ◌&&◌, ◌||◌, Option, none, some, List, [], ◌∷◌, ◌++◌, length, is_some,
  if◌then◌else◌,
}
use beast_db.Js.Text.{Text, units}
use beast_db.Js.Case.{CaseMap}
use beast_db.Js.Json.{Json, Items, str, arr, nil, cons, truthy}
use beast_db.Js.BigInt.{to_decimal}
use beast_db.Js.Platform.{Platform}
use beast_db.Types.{UniversalRecord}
use beast_db.Hooks.UserContext.{Context}
use beast_db.Display.{or_text}
use beast_db.Views.Html.{
  Html, Attr, click, nothing, say, ◌⊕◌, el, with_attrs, lit, prop, when, when_text, when_some,
  either,
}
use beast_db.Views.Formats.{Formats, format_bytes}
use beast_db.Views.Values.{record_value, record_field_list}
use beast_db.Views.Engine.{EngineProps, record_engine_details}
use beast_db.Views.Profile.{ProfileProps, field_of, user_profile_panel}

-- The list as an array.
abbrev pub array_of : List Json → Items
array_of [] = nil
array_of (j ∷ js) = cons j (array_of js)

-- JSON.stringify(JSON.parse(raw), null, 2), or the text as it is.
unfoldable pub formatted : Platform → Text → Text
formatted p raw = elim (p.parse_json raw) [ none ↦ raw | some j ↦ p.pretty j ]

abbrev is_truthy : Option Json → Bool
is_truthy none = false
is_truthy (some j) = truthy j

-- isUserRecord
unfoldable pub is_user_record : UniversalRecord → Bool
is_user_record r =
    is_truthy (field_of r (units "email")) || is_truthy (field_of r (units "username"))

pub record DetailsProps (E : Type 0) : Type 0 where
  pub shown : UniversalRecord
  pub can_write : Bool
  pub on_delete : Text → List E
  pub on_delete_user : Option (ℕ → List E)
  pub on_edit : Option (List E)
  pub on_select : Option (UniversalRecord → List E)
  pub copy : Text → Text → List E
  pub copy_bits : Text → List E
  pub context : Context

-- handler ?? (() => {})
abbrev pub or_idle {ℓ} : {A : Type ℓ} {E : Type 0} → Option (A → List E) → A → List E
or_idle none a = []
or_idle (some h) a = h a

abbrev pub cover : {E : Type 0} → UniversalRecord → Html E
cover r =
    when_some r.cover_url
      (λ url. when_text url (with_attrs "img" (prop "src" url ∷ prop "alt" [] ∷ []) nothing))

module _ {E : Type 0} ⦃c : CaseMap⦄ (js : Platform) (f : Formats) where
  engine_props : DetailsProps E → EngineProps E
  unfolding formatted
  engine_props p = record {
    shown = p.shown;
    formatted_raw = formatted js p.shown.raw;
    can_write = p.can_write;
    on_delete = p.on_delete;
    copy = p.copy;
    copy_bits = p.copy_bits;
  }

  engine : DetailsProps E → Html E
  unfolding record_engine_details engine_props
  engine p = record_engine_details f (engine_props p)

  profile_props : DetailsProps E → ProfileProps E
  profile_props p = record {
    shown = p.shown;
    can_write = p.can_write;
    on_delete = p.on_delete;
    on_delete_user = or_idle p.on_delete_user;
    on_select = or_idle p.on_select;
    context = p.context;
  }

  user_details : DetailsProps E → Html E
  unfolding engine user_profile_panel profile_props
  user_details p = el "div" (user_profile_panel f (profile_props p) ⊕ el "div" (engine p))

  edit_button : DetailsProps E → Html E
  edit_button p =
      when_some p.on_edit
        (λ edit. when p.can_write (with_attrs "Button" (click edit ∷ []) (lit "Edit")))

  document_details : DetailsProps E → Html E
  unfolding engine edit_button record_value record_field_list to_decimal
  document_details p =
      let r = p.shown in
      el "div" (
        el "div" (
          el "div" (el "span" (say r.prefix_label) ⊕ edit_button p)
          ⊕ el "h2" (say r.primary_label)
          ⊕ when_text r.secondary_label (el "p" (say r.secondary_label)))
        ⊕ cover r
        ⊕ when_some r.fields (λ fields.
          el "section" (el "h3" (lit "Document Fields") ⊕ record_field_list f fields false))
        ⊕ when_some r.array_items (λ list. el "section" (
            el "h3" (say (units "Items (" ++ to_decimal (length list) ++ units ")"))
            ⊕ el "div" (record_value f (arr (array_of list)))))
        ⊕ when (not (is_some r.fields) && not (is_some r.array_items))
            (el "div" (record_value f (str (or_text r.raw (units "Empty value")))))
        ⊕ engine p)

  unfoldable pub record_details : DetailsProps E → Html E
  unfolding is_user_record user_details document_details
  record_details p = either (is_user_record p.shown) (user_details p) (document_details p)

pub record SheetProps (E : Type 0) : Type 0 where
  pub shown : Option UniversalRecord
  pub can_write : Bool
  pub on_delete : Text → List E
  pub copy : Text → Text → List E
  pub copy_bits : Text → List E
  pub context : Context

module _ {E : Type 0} ⦃c : CaseMap⦄ (js : Platform) (f : Formats) where
  sheet_details : SheetProps E → UniversalRecord → DetailsProps E
  sheet_details p r = record {
    shown = r;
    can_write = p.can_write;
    on_delete = p.on_delete;
    on_delete_user = none;
    on_edit = none;
    on_select = none;
    copy = p.copy;
    copy_bits = p.copy_bits;
    context = p.context;
  }

  sheet_record : SheetProps E → UniversalRecord → Html E
  unfolding record_details format_bytes sheet_details
  sheet_record p r =
      el "div" (
        el "p" (say r.prefix_label)
        ⊕ el "SheetTitle" (say r.primary_label)
        ⊕ with_attrs "SheetDescription" (prop "id" (units "record-description") ∷ [])
            (say (units "Key " ++ r.key_str ++ units " · " ++ format_bytes f r.byte_size)))
      ⊕ record_details js f (sheet_details p r)
      ⊕ when p.can_write (
          el "div" (with_attrs "Button" (click (p.on_delete r.key_str) ∷ []) (lit "Delete record")))

  -- The sheet is open while there is a record; what closes it calls onClose.
  unfoldable pub record_sheet : SheetProps E → Html E
  unfolding sheet_record
  record_sheet p = el "Sheet" (
      with_attrs "SheetContent" (prop "aria-describedby" (units "record-description") ∷ [])
        (elim p.shown [ none ↦ el "SheetTitle" (lit "Record") | some r ↦ sheet_record p r ]))
