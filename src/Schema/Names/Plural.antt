-- ===== src/Schema/Names/Plural.antt =====
-- schema-inference.ts: pluralize.
use beast_db.Prelude.{
  ap, ◌==◌, ◌≡◌, refl, ◌⊎◌, inl, inr, true, [], ◌∷◌, ◌++◌, Bool-cases, append_assoc,
}
use beast_db.Js.Text.{Text, units}
use beast_db.Js.Regex.{lit_i, anything, test}
use beast_db.Js.Regex.Laws.{Matches, one, both, nothing, stop, more, test_iff}
use beast_db.Js.Case.{lower_unit}
use beast_db.Schema.Names.{pluralize, is_media, ends_in_s, ends_in_hiss, ends_in_y, but_last}

Matches-anything : (s : Text) → Matches anything s
Matches-anything [] = stop
Matches-anything (u ∷ s) = more u [] s (u ∷ s) (one u refl) (Matches-anything s) refl

lower_s : (lower_unit b's' == b's') ≡ true
unfolding lower_unit
lower_s = refl

ends_in_s-append : (s : Text) → test ends_in_s (s ++ units "s") ≡ true
unfolding ends_in_s
ends_in_s-append s =
    let last : Matches (lit_i (units "s")) (units "s") =
      both (units "s") [] (units "s") (one b's' lower_s) nothing refl in
    (test_iff _ (s ++ units "s")).1 (both s (units "s") _ (Matches-anything s) last refl)

kept : (word : Text) → test ends_in_s word ≡ true → pluralize word ≡ word
unfolding pluralize
kept word h = elim (Bool-cases (test is_media word)) [ inl e ↦ rw e | inr e ↦ rw (e, h) ]

-- A plural is the word itself, or ends in an s.
pluralize-cases : (word : Text) → (pluralize word ≡ word) ⊎ (test ends_in_s (pluralize word) ≡ true)
unfolding pluralize
pluralize-cases word = elim (Bool-cases (test is_media word)) [
  | inl e ↦ inl (rw e)
  | inr e ↦ elim (Bool-cases (test ends_in_s word)) [
    | inl f ↦ inl (rw (e, f))
    | inr f ↦ inr (
        rw (e, f)
          (elim (Bool-cases (test ends_in_hiss word)) [
            | inl g ↦ rw g (rw append_assoc at (ends_in_s-append (word ++ units "e")))
            | inr g ↦ rw g (elim (Bool-cases (test ends_in_y word)) [
              | inl k ↦ rw k (rw append_assoc at (ends_in_s-append (but_last word ++ units "ie")))
              | inr k ↦ rw k (ends_in_s-append word)
            ])
          ]))
  ]
]

-- The plural of a plural is itself.
pub pluralize-pluralize : (word : Text) → pluralize (pluralize word) ≡ pluralize word
pluralize-pluralize word = elim (pluralize-cases word) [
  | inl same ↦ ap pluralize same
  | inr ends ↦ kept (pluralize word) ends
]
