-- ===== src/Views/Formats.antt =====
-- studio/src/utils/format.ts: formatBytes and formatDateRelative, which turn on binary floating point
-- and on Date, with those as parameters.
pub mod Units
use beast_db.Prelude.{
  ℕ, zero, suc, ◌/◌, ◌^◌, Option, none, some, [], ◌∷◌, ◌++◌, ltb, ◌==◌, if◌then◌else◌,
}
use beast_db.Js.Text.{Text, units}
use beast_db.Js.BigInt.{to_decimal}

pub record Formats : Type 0 where
  -- Math.floor(Math.log(bytes) / Math.log(1024))
  pub log_1024 : ℕ → ℕ
  -- String(parseFloat((bytes / k).toFixed(1)))
  pub one_decimal : ℕ → ℕ → Text
  -- Math.floor((Date.now() - d.getTime()) / 1000) for the date d of the text, 0 for a time to come;
  -- none for a text that is no date.
  pub seconds_since : Text → Option ℕ
  -- d.toLocaleDateString() and d.toLocaleString()
  pub date_text : Text → Text
  pub time_text : Text → Text
  -- n.toLocaleString()
  pub number_text : ℕ → Text
  -- The address of the page with the parameters `key` and `partition`.
  pub share_link : Text → Text → Text

-- sizes[i]
size_name : ℕ → Text
size_name zero = units "B"
size_name (suc zero) = units "KB"
size_name (suc (suc zero)) = units "MB"
size_name (suc (suc (suc zero))) = units "GB"
size_name (suc (suc (suc (suc i)))) = units "undefined"

module _ (f : Formats) where
  unfoldable pub format_bytes : ℕ → Text
  unfolding size_name
  format_bytes bytes =
      let i = f.log_1024 bytes in
      if bytes == 0 then units "0 B" else f.one_decimal bytes (1024 ^ i) ++ units " " ++ size_name i

  -- The text of a date that is there.
  ago : Text → ℕ → Text
  unfolding to_decimal
  ago date diff =
      if ltb diff 60
      then units "Just now"
      else if ltb diff 3600
      then to_decimal (diff / 60) ++ units "m ago"
      else if ltb diff 86400
      then to_decimal (diff / 3600) ++ units "h ago"
      else if ltb diff 604800
      then to_decimal (diff / 86400) ++ units "d ago"
      else f.date_text date

  unfoldable pub format_date_relative : Text → Text
  unfolding ago
  format_date_relative [] = units "N/A"
  format_date_relative (u ∷ s) = elim (f.seconds_since (u ∷ s)) [
    | none ↦ u ∷ s
    | some diff ↦ ago (u ∷ s) diff
  ]
