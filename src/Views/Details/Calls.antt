-- ===== src/Views/Details/Calls.antt =====
-- The calls of the details of a record.
use beast_db.Prelude.{
  ◌≡◌, refl, Bool, true, false, Option, none, some, List, ◌++◌, all, arith, length,
}
use beast_db.Js.Text.{Text, units}
use beast_db.Js.Case.{CaseMap}
use beast_db.Js.Json.{str, arr}
use beast_db.Js.BigInt.{to_decimal}
use beast_db.Js.Platform.{Platform}
use beast_db.Types.{UniversalRecord}
use beast_db.Display.{or_text}
use beast_db.Views.Html.{◌⊕◌, say, el, lit, every}
use beast_db.Views.Html.Laws.{every-when_some, every-when_text}
use beast_db.Views.Formats.{Formats}
use beast_db.Views.Values.{record_value, record_field_list}
use beast_db.Views.Values.Calls.{every-record_value, every-record_field_list}
use beast_db.Views.Engine.Calls.{every-record_engine_details}
use beast_db.Views.Profile.Calls.{every-user_profile_panel}
use beast_db.Views.Details.{
  array_of, or_idle, cover, DetailsProps, engine_props, profile_props, sheet_details, engine,
  user_details, edit_button, document_details, record_details, SheetProps, sheet_record,
  record_sheet,
}

module _ {E : Type 0} (p : E → Bool) where
  pub every-cover : (r : UniversalRecord) → every p (cover {E = E} r) ≡ true
  every-cover r = every-when_some p r.cover_url _ (λ url. every-when_text p url _ refl)

  all-or_idle :
      (o : Option (UniversalRecord → List E))
      → ((h : UniversalRecord → List E) → o ≡ some h → (r : UniversalRecord) → all p (h r) ≡ true)
      → (r : UniversalRecord) → all p (or_idle o r) ≡ true
  all-or_idle none k r = refl
  all-or_idle (some h) k r = k h refl r

module _ {E : Type 0} ⦃c : CaseMap⦄ (p : E → Bool) (js : Platform) (f : Formats)
    (d : DetailsProps E) (copies : (t l : Text) → all p (d.copy t l) ≡ true)
    (copies_bits : (t : Text) → all p (d.copy_bits t) ≡ true)
    (selects : (r : UniversalRecord) → all p (or_idle d.on_select r) ≡ true)
    (reads : d.can_write ≡ false) where
  every-engine : every p (engine js f d) ≡ true
  unfolding engine engine_props
  every-engine = every-record_engine_details p f (engine_props js f d) copies copies_bits reads

  every-user_details : every p (user_details js f d) ≡ true
  unfolding user_details profile_props
  every-user_details =
      ground
        (arith, every-engine, every-user_profile_panel p f (profile_props js f d) selects reads)

  every-edit_button : every p (edit_button js f d) ≡ true
  unfolding edit_button
  every-edit_button = every-when_some p d.on_edit _ (λ edit. rw reads refl)

  every-document_details : every p (document_details js f d) ≡ true
  unfolding document_details
  every-document_details = ground (
    arith,
    every-engine,
    every-edit_button,
    every-cover p d.shown,
    every-when_text p d.shown.secondary_label (el "p" (say d.shown.secondary_label)) refl,
    every-when_some p d.shown.fields
        (λ fields.
          el "section" (el "h3" (lit "Document Fields") ⊕ record_field_list f fields false))
        (λ fields. every-record_field_list p f fields false),
    every-when_some p d.shown.array_items
        (λ list. el "section" (
          el "h3" (say (units "Items (" ++ to_decimal (length list) ++ units ")"))
          ⊕ el "div" (record_value f (arr (array_of list)))))
        (λ list. every-record_value p f (arr (array_of list))),
    every-record_value p f (str (or_text d.shown.raw (units "Empty value"))),
  )

  pub every-record_details : every p (record_details js f d) ≡ true
  unfolding record_details
  every-record_details = ground (arith, every-user_details, every-document_details)

module _ {E : Type 0} ⦃c : CaseMap⦄ (p : E → Bool) (js : Platform) (f : Formats) (d : SheetProps E)
    (copies : (t l : Text) → all p (d.copy t l) ≡ true)
    (copies_bits : (t : Text) → all p (d.copy_bits t) ≡ true) (reads : d.can_write ≡ false) where
  every-sheet_record : (r : UniversalRecord) → every p (sheet_record js f d r) ≡ true
  unfolding sheet_record sheet_details
  every-sheet_record r = ground (
    arith,
    reads,
    every-record_details p js f (sheet_details js f d r) copies copies_bits (λ s. refl) reads,
  )

  every-sheet_body :
      (o : Option UniversalRecord)
      → every p (elim o [ none ↦ el "SheetTitle" (lit "Record") | some r ↦ sheet_record js f d r ])
        ≡ true
  every-sheet_body none = refl
  every-sheet_body (some r) = every-sheet_record r

  pub every-record_sheet : every p (record_sheet js f d) ≡ true
  unfolding record_sheet
  every-record_sheet = ground (arith, every-sheet_body d.shown)
