-- ===== src/Views/Analyzer.antt =====
-- studio/src/components/KeyAnalyzerDialog.tsx: the key and the seed, and what the dialog renders.
pub mod Hashes
use beast_db.Prelude.{
  ℕ, ◌^◌, Bool, true, false, not, ◌&&◌, Option, none, some, List, [], ◌∷◌, ◌++◌, ltb, if◌then◌else◌,
}
use beast_db.Js.Text.{Text, units, trim}
use beast_db.Js.BigInt.{ℤ, pos, negsuc, parse_big_int}
use beast_db.Js.Regex.{test}
use beast_db.Keys.Registry.{Registries}
use beast_db.Keys.Format.{fnv1a64}
use beast_db.Keys.Decoder.{KeyDecoded, decode_key}
use beast_db.NewRecord.{key_re}
use beast_db.Views.Html.{
  Html, Attr, click, change, disabled, nothing, say, ◌⊕◌, el, with_attrs, button, lit, prop, when,
  when_some, each,
}
use beast_db.Views.Engine.{key_bit_slicer}

pub record Analyzer : Type 0 where
  pub key : Text
  pub seed : Text

pub record Preset : Type 0 where
  pub label : Text
  pub prefix : Text

abbrev presets : List Preset
presets =
    record { label = units "User (0x01)"; prefix = units "72057594037927936" }
    ∷ record { label = units "Token (0x05)"; prefix = units "360287970189639680" }
    ∷ record { label = units "Catalog (0x10)"; prefix = units "1152921504606846976" }
    ∷ []

-- BigInt(key) <= 18446744073709551615n, for a key that passes the test.
fits : Option ℤ → Bool
fits none = false
fits (some (pos n)) = ltb n (2 ^ 64)
fits (some (negsuc n)) = true

-- valid; the empty key does not pass the test.
unfoldable pub is_valid : Text → Bool
unfolding fits key_re parse_big_int test
is_valid key = test key_re key && fits (parse_big_int key)

unfoldable pub decoded_of : Registries → Text → Option KeyDecoded
unfolding is_valid decode_key
decoded_of s [] = none
decoded_of s (u ∷ k) = if is_valid (u ∷ k) then some (decode_key s (u ∷ k)) else none

pub data Action : Type 0 where
  set_key set_seed : Text → Action

-- The button `Hash`.
unfoldable pub hash_seed : Analyzer → Analyzer
unfolding fnv1a64 trim
hash_seed a = record a { key = fnv1a64 (trim a.seed) }

is_blank : Text → Bool
is_blank s = elim (trim s) [ [] ↦ true | u ∷ w ↦ false ]

warning : Text → Html Action
warning [] = nothing
warning (u ∷ k) = when (not (is_valid (u ∷ k))) (
    with_attrs "p" (prop "role" (units "alert") ∷ [])
      (lit "Invalid key: Must be an unsigned 64-bit integer (0 to 18446744073709551615)."))

-- With no onNotice, copying the bits says nothing.
anatomy : KeyDecoded → Html Action
unfolding key_bit_slicer
anatomy d = el "div" (
    key_bit_slicer (λ bits. []) d.raw d.prefix_label d.user_hash d.item_hash
    ⊕ el "div" (
        el "div" (el "span" (lit "HEXADECIMAL") ⊕ el "p" (say d.hex))
        ⊕ el "div" (
            el "span" (lit "PARTITION METADATA")
            ⊕ el "div" (el "Badge" (say d.prefix_hex) ⊕ el "span" (say d.prefix_label)))))

unfoldable pub key_analyzer_dialog : Registries → Analyzer → Html Action
unfolding is_blank warning anatomy decoded_of fnv1a64 trim
key_analyzer_dialog s a = el "Dialog" (
    el "DialogContent" (
      el "DialogTitle" (lit "Key Analyzer")
      ⊕ el "DialogDescription" (
          lit
            "Inspect 64-bit BeastDB keys, decode partition anatomy, or hash identifiers via FNV-1a.")
      ⊕ el "div" (
          el "div" (
            el "div" (
              el "label" (lit "DECIMAL KEY")
              ⊕ el "div" (each (λ x. button (set_key x.prefix ∷ []) (say x.label)) presets))
            ⊕ with_attrs "Input"
                (prop "value" a.key
                  ∷ change (λ k. set_key k ∷ [])
                  ∷ prop "placeholder" (units "e.g. 72057594037927936")
                  ∷ [])
                nothing)
          ⊕ el "div" (
              el "label" (lit "HASH STRING IDENTIFIER (FNV-1a)")
              ⊕ el "div" (
                  with_attrs "Input"
                    (prop "aria-label" (units "Identifier to hash")
                      ∷ prop "value" a.seed
                      ∷ change (λ k. set_seed k ∷ [])
                      ∷ prop "placeholder" (units "e.g. alice@example.com or user_104")
                      ∷ [])
                    nothing
                  ⊕ with_attrs "Button"
                      (disabled (is_blank a.seed)
                        ∷ click (set_key (fnv1a64 (trim a.seed)) ∷ [])
                        ∷ [])
                      (lit "Hash")))
          ⊕ warning a.key
          ⊕ when_some (decoded_of s a.key) anatomy)))
