-- ===== src/Views/Engine.antt =====
-- studio/src/components: KeyBitSlicer.tsx and RecordEngineDetails.tsx, the key and the stored text
-- of a record. What copies to the clipboard is an argument; the notices of a copy stand apart.
pub mod Calls
pub mod Bits
use beast_db.Prelude.{ℕ, Bool, true, false, Option, none, some, List, [], ◌∷◌, ◌++◌, take, drop}
use beast_db.Js.Text.{Text, units, pad_start}
use beast_db.Js.Case.{CaseMap}
use beast_db.Js.Radix.{to_radix, parse_radix}
use beast_db.Js.BigInt.{ℤ, pos, negsuc, parse_big_int, to_decimal}
use beast_db.Types.{UniversalRecord}
use beast_db.Keys.Registry.{hex_byte}
use beast_db.Display.{format_label}
use beast_db.Views.Html.{
  Html, Attr, click, nothing, say, ◌⊕◌, invalid, el, with_attrs, button, lit, prop, when, when_some,
}
use beast_db.Views.Formats.{Formats, format_bytes}
use beast_db.Views.Values.{record_field_list}
use Prim.Native.Nat.{◌+◌}

-- BigInt(keyStr).toString(2).padStart(64, "0")
binary : ℤ → Text
binary (pos n) = to_radix 2 n
binary (negsuc n) = b'-' ∷ to_radix 2 (n + 1)

pub record Slices : Type 0 where
  pub bits : Text
  pub prefix_bits : Text
  pub user_bits : Text
  pub item_bits : Text

slices_of : Text → Slices
slices_of bits = record {
  bits = bits;
  prefix_bits = take 8 bits;
  user_bits = take 28 (drop 8 bits);
  item_bits = take 28 (drop 36 bits);
}

-- none where BigInt throws.
unfoldable pub slices : Text → Option Slices
unfolding binary slices_of
slices key = elim (parse_big_int key) [
  | none ↦ none
  | some n ↦ some (slices_of (pad_start 64 (binary n)))
]

-- The notice of copyBits, and of copy.
unfoldable pub bits_notice : Bool → Text × Bool
bits_notice true = (units "64-bit binary copied.", false)
bits_notice false = (units "Copy failed.", true)

unfoldable pub copy_notice : Text → Bool → Text × Bool
copy_notice label true = (label ++ units " copied.", false)
copy_notice label false = (units "Copy failed.", true)

module _ {E : Type 0} where
  labelled : Text → Html E
  labelled [] = nothing
  labelled (u ∷ s) = say (units "· " ++ u ∷ s)

  segment : Text → Text → Html E
  segment name bits =
      with_attrs "div" (prop "title" (name ++ units " (" ++ bits ++ units ")") ∷ []) nothing

  legend : Text → Html E → Html E
  legend name value = el "div" (el "div" (el "span" nothing ⊕ el "span" (say name)) ⊕ el "p" value)

  anatomy : (Text → List E) → Text → ℕ → ℕ → Slices → ℕ → Html E
  unfolding labelled segment legend to_decimal
  anatomy copy_bits prefix_label user_hash item_hash s prefix = el "div" (
      el "div" (
        el "span" (lit "64-Bit Keyspace Anatomy")
        ⊕ with_attrs "Button"
            (click (copy_bits s.bits) ∷ prop "title" (units "Copy 64-bit binary") ∷ []) nothing)
      ⊕ el "div" (
          segment (units "Partition Prefix: 8 bits") s.prefix_bits
          ⊕ segment (units "Domain/User Hash: 28 bits") s.user_bits
          ⊕ segment (units "Item/Sequence: 28 bits") s.item_bits)
      ⊕ el "div" (
          legend (units "PREFIX (8b)") (say (units "0x" ++ hex_byte prefix) ⊕ labelled prefix_label)
          ⊕ legend (units "DOMAIN (28b)") (say (to_decimal user_hash))
          ⊕ legend (units "ITEM / SEQ (28b)") (say (to_decimal item_hash))))

  -- A record always has its two hashes. BigInt("0b…") throws if it meets the sign.
  unfoldable pub key_bit_slicer : (Text → List E) → Text → Text → ℕ → ℕ → Html E
  unfolding slices anatomy parse_radix
  key_bit_slicer copy_bits key prefix_label user_hash item_hash = elim (slices key) [
    | none ↦ nothing
    | some s ↦ elim (parse_radix 2 s.prefix_bits) [
      | none ↦ invalid
      | some prefix ↦ anatomy copy_bits prefix_label user_hash item_hash s prefix
    ]
  ]

pub record EngineProps (E : Type 0) : Type 0 where
  pub shown : UniversalRecord
  pub formatted_raw : Text
  pub can_write : Bool
  pub on_delete : Text → List E
  -- copy(text, label) and copyBits
  pub copy : Text → Text → List E
  pub copy_bits : Text → List E

module _ {E : Type 0} ⦃c : CaseMap⦄ (f : Formats) where
  engine_buttons : EngineProps E → Html E
  engine_buttons p =
      let r = p.shown in
      let link = f.share_link r.key_str (to_decimal r.prefix) in
      el "div" (
        with_attrs "Button" (click (p.copy r.key_str (units "Key")) ∷ []) (lit "Key")
        ⊕ with_attrs "Button" (click (p.copy p.formatted_raw (units "Raw")) ∷ []) (lit "JSON")
        ⊕ with_attrs "Button" (click (p.copy link (units "Shareable Link")) ∷ []) (lit "Link")
        ⊕ when p.can_write
            (with_attrs "Button" (click (p.on_delete r.key_str) ∷ []) (lit "Delete")))

  unfoldable pub record_engine_details : EngineProps E → Html E
  unfolding engine_buttons key_bit_slicer record_field_list format_label format_bytes
  record_engine_details p =
      let r = p.shown in
      el "details" (
        el "summary"
          (el "span" (lit "ENGINE & STORAGE INTERNALS") ⊕ el "span" (lit "Click to expand"))
        ⊕ el "div" (
            when_some r.fields (λ fields. record_field_list f fields true)
            ⊕ el "p" (say (format_label r.format ++ units " · " ++ format_bytes f r.byte_size))
            ⊕ el "div" (
                el "p" (lit "Key: " ⊕ el "span" (say r.key_str))
                ⊕ el "p" (lit "Hex: " ⊕ el "span" (say r.key_hex)))
            ⊕ engine_buttons p
            ⊕ key_bit_slicer p.copy_bits r.key_str r.prefix_label r.user_hash r.item_hash
            ⊕ el "div" (el "p" (lit "Raw Storage Payload") ⊕ el "pre" (say p.formatted_raw))))
