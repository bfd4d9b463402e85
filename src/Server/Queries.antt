-- ===== src/Server/Queries.antt =====
-- The numbers that a URL carries to the server.
use beast_db.Prelude.{
  ℕ, ◌-◌, ◌^◌, ◌<◌, ◌≡◌, refl, ◌∙◌, ap, List, [], ◌∷◌, ◌++◌, All, arith, append_assoc,
}
use beast_db.Js.Text.{Text, units, split}
use beast_db.Js.Text.Split.{Without, split-append, split-Without}
use beast_db.Js.Radix.Digits.{IsDigit, All-IsDigit}
use beast_db.Js.Radix.RoundTrip.{parse_radix-to_radix}
use beast_db.Js.BigInt.{to_decimal}
use beast_db.Server.{
  Entry, first_value, query_get, uint_or, limit_of, get_records, scan_records_bounded,
}

digits-Without : (s : Text) → All IsDigit s → Without b'&' s
digits-Without [] h = tt
digits-Without (u ∷ s) (d, h) = (ground arith, digits-Without s h)

to_decimal-Without : (n : ℕ) → Without b'&' (to_decimal n)
unfolding to_decimal
to_decimal-Without n = digits-Without (to_decimal n) (All-IsDigit n)

pub uint_or-to_decimal : (d n : ℕ) → n < 2 ^ 64 → uint_or d (to_decimal n) ≡ n
unfolding uint_or to_decimal
uint_or-to_decimal d n h = ground (arith, parse_radix-to_radix 10 (omega arith) (omega arith) n)

abbrev start_part : Text → Text
start_part j = units "start=" ++ j

abbrev end_part : Text → Text
end_part k = units "end=" ++ k

start_part-Without : (j : Text) → Without b'&' j → Without b'&' (start_part j)
start_part-Without j h = (refl, (refl, (refl, (refl, (refl, (refl, h))))))

end_part-Without : (k : Text) → Without b'&' k → Without b'&' (end_part k)
end_part-Without k h = (refl, (refl, (refl, (refl, h))))

assoc4 : (a b c d : Text) → a ++ b ++ c ++ d ≡ a ++ (b ++ (c ++ d))
assoc4 a b c d = append_assoc (a ++ b) c d ∙ append_assoc a b (c ++ d)

module _ (j k : ℕ) where
  -- The URL of loadPartition, and that of loadMore.
  abbrev pub partition_text : Text
  partition_text =
      units "/api/records?start="
      ++ to_decimal j
      ++ units "&end="
      ++ to_decimal k
      ++ units "&limit=100"

  abbrev pub more_text : Text
  more_text =
      units "/api/records?start="
      ++ to_decimal j
      ++ units "&limit=100"
      ++ (units "&end=" ++ to_decimal k)

  split-partition :
      split b'&'
        (start_part (to_decimal j) ++ b'&' ∷ (end_part (to_decimal k) ++ units "&limit=100"))
      ≡ start_part (to_decimal j) ∷ end_part (to_decimal k) ∷ units "limit=100" ∷ []
  split-partition =
      split-append b'&' (start_part (to_decimal j)) (end_part (to_decimal k) ++ units "&limit=100")
        (start_part-Without (to_decimal j) (to_decimal-Without j))
      ∙ ap (λ r. start_part (to_decimal j) ∷ r)
          (split-append b'&' (end_part (to_decimal k)) (units "limit=100")
              (end_part-Without (to_decimal k) (to_decimal-Without k))
            ∙ ap (λ r. end_part (to_decimal k) ∷ r) (unfold split in refl))

  split-more :
      split b'&'
        (start_part (to_decimal j) ++ b'&' ∷ (units "limit=100" ++ b'&' ∷ end_part (to_decimal k)))
      ≡ start_part (to_decimal j) ∷ units "limit=100" ∷ end_part (to_decimal k) ∷ []
  split-more =
      split-append b'&' (start_part (to_decimal j))
        (units "limit=100" ++ b'&' ∷ end_part (to_decimal k))
        (start_part-Without (to_decimal j) (to_decimal-Without j))
      ∙ ap (λ r. start_part (to_decimal j) ∷ r)
          (split-append b'&' (units "limit=100") (end_part (to_decimal k))
              (refl, (refl, (refl, (refl, (refl, (refl, (refl, (refl, (refl, tt)))))))))
            ∙ ap (λ r. units "limit=100" ∷ r)
                (split-Without b'&' (end_part (to_decimal k))
                  (end_part-Without (to_decimal k) (to_decimal-Without k))))

  partition-value :
      (name : Text)
      → query_get name partition_text
        ≡ first_value name
            (start_part (to_decimal j) ∷ end_part (to_decimal k) ∷ units "limit=100" ∷ [])
  unfolding query_get
  partition-value name =
      ap (λ t. query_get name (units "/api/records?start=" ++ t))
        (assoc4 (to_decimal j) (units "&end=") (to_decimal k) (units "&limit=100"))
      ∙ ap (first_value name) split-partition

  more-value :
      (name : Text)
      → query_get name more_text
        ≡ first_value name
            (start_part (to_decimal j) ∷ units "limit=100" ∷ end_part (to_decimal k) ∷ [])
  unfolding query_get
  more-value name =
      ap (λ t. query_get name (units "/api/records?start=" ++ t))
        (append_assoc (to_decimal j) (units "&limit=100") (units "&end=" ++ to_decimal k))
      ∙ ap (first_value name) split-more

  module _ (small : j < 2 ^ 64) (small_end : k < 2 ^ 64) (store : List Entry) where
    pub get_records-partition :
        get_records store partition_text ≡ scan_records_bounded store j k 100
    unfolding get_records
    get_records-partition =
        rw
          (
            partition-value (units "start="),
            partition-value (units "end="),
            partition-value (units "limit="),
            uint_or-to_decimal 0 j small,
            uint_or-to_decimal (2 ^ 64 - 1) k small_end,
          )
          (unfold limit_of in refl)

    pub get_records-more : get_records store more_text ≡ scan_records_bounded store j k 100
    unfolding get_records
    get_records-more =
        rw
          (
            more-value (units "start="),
            more-value (units "end="),
            more-value (units "limit="),
            uint_or-to_decimal 0 j small,
            uint_or-to_decimal (2 ^ 64 - 1) k small_end,
          )
          (unfold limit_of in refl)
