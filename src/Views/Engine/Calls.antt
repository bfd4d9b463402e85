-- ===== src/Views/Engine/Calls.antt =====
-- The calls of the engine's details: copying, and deleting for those who may write.
use beast_db.Prelude.{
  ℕ, ◌≡◌, refl, Bool, true, false, Option, none, some, List, [], ◌∷◌, all, arith,
}
use beast_db.Js.Text.{Text, units}
use beast_db.Js.BigInt.{to_decimal}
use beast_db.Views.Html.Laws.{every-when_some}
use beast_db.Js.Case.{CaseMap}
use beast_db.Js.Radix.{parse_radix}
use beast_db.Views.Html.{Html, every}
use beast_db.Views.Formats.{Formats}
use beast_db.Views.Values.{record_field_list}
use beast_db.Views.Values.Calls.{every-record_field_list}
use beast_db.Views.Engine.{
  Slices, slices, labelled, anatomy, key_bit_slicer, EngineProps, engine_buttons, legend, segment,
  record_engine_details,
}

module _ {E : Type 0} (p : E → Bool) where
  every-labelled : (s : Text) → every p (labelled s) ≡ true
  unfolding labelled
  every-labelled [] = refl
  every-labelled (u ∷ s) = refl

  module _ (copy_bits : Text → List E) (h : (t : Text) → all p (copy_bits t) ≡ true) where
    every-anatomy :
        (label : Text) (u i : ℕ) (s : Slices) (n : ℕ)
        → every p (anatomy copy_bits label u i s n) ≡ true
    unfolding anatomy legend segment
    every-anatomy label u i s n = ground (arith, h s.bits, every-labelled label)

    every-read :
        (label : Text) (u i : ℕ) (s : Slices) (o : Option ℕ)
        → every p (elim o [ none ↦ Html.invalid | some n ↦ anatomy copy_bits label u i s n ]) ≡ true
    every-read label u i s none = refl
    every-read label u i s (some n) = every-anatomy label u i s n

    pub every-key_bit_slicer :
        (key label : Text) (u i : ℕ) → every p (key_bit_slicer copy_bits key label u i) ≡ true
    unfolding key_bit_slicer
    every-key_bit_slicer key label u i =
        elim (slices key)
          as (λ o.
            every p (elim o [
              | none ↦ Html.nothing
              | some s ↦ elim (parse_radix 2 s.prefix_bits) [
                | none ↦ Html.invalid
                | some n ↦ anatomy copy_bits label u i s n
              ]
            ])
            ≡ true) [ none ↦ refl | some s ↦ every-read label u i s (parse_radix 2 s.prefix_bits) ]

module _ {E : Type 0} ⦃c : CaseMap⦄ (p : E → Bool) (f : Formats) (r : EngineProps E)
    (copies : (t l : Text) → all p (r.copy t l) ≡ true)
    (copies_bits : (t : Text) → all p (r.copy_bits t) ≡ true) (reads : r.can_write ≡ false) where
  every-engine_buttons : every p (engine_buttons f r) ≡ true
  unfolding engine_buttons
  every-engine_buttons = ground (
    arith,
    copies r.shown.key_str (units "Key"),
    copies r.formatted_raw (units "Raw"),
    copies (f.share_link r.shown.key_str (to_decimal r.shown.prefix)) (units "Shareable Link"),
  )

  pub every-record_engine_details : every p (record_engine_details f r) ≡ true
  unfolding record_engine_details
  every-record_engine_details = ground (
    arith,
    every-engine_buttons,
    every-when_some p r.shown.fields (λ fields. record_field_list f fields true)
        (λ fields. every-record_field_list p f fields true),
    every-key_bit_slicer p r.copy_bits copies_bits r.shown.key_str r.shown.prefix_label
        r.shown.user_hash r.shown.item_hash,
  )
