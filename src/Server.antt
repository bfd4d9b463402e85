-- ===== src/Server.antt =====
-- internal/web/handler/api.go (GetRecords) and internal/api/engine_scan.go (ScanRecordsBounded): the
-- answer to GET /api/records. The index is the list of its entries in the order of their keys.
pub mod Queries
pub mod Scans
use beast_db.Prelude.{
  ℕ, ◌+◌, ◌-◌, ◌^◌, Bool, true, false, ◌&&◌, Option, none, some, List, [], ◌∷◌, ◌++◌, map, keep,
  take, drop, ltb, leb, ◌==◌, if◌then◌else◌,
}
use beast_db.Js.Text.{Text, units, split}
use beast_db.Js.Radix.{parse_radix}
use beast_db.Js.BigInt.{to_decimal}
use beast_db.Hooks.Data.{RawRecord, Page}

-- What follows the question mark.
abbrev after_mark : Text → Text
after_mark [] = []
after_mark (u ∷ s) = let rest = after_mark s in if u == b'?' then s else rest

abbrev strip : Text → Text → Option Text
strip [] s = some s
strip (u ∷ p) [] = none
strip (u ∷ p) (v ∷ s) = let rest = strip p s in if u == v then rest else none

abbrev first_value : Text → List Text → Text
first_value name [] = []
first_value name (part ∷ parts) =
    let rest = first_value name parts in elim (strip name part) [ none ↦ rest | some value ↦ value ]

-- r.URL.Query().Get(name), for values without escapes; `name` ends with the equals sign.
unfoldable pub query_get : Text → Text → Text
unfolding split
query_get name url = first_value name (split b'&' (after_mark url))

-- strconv.ParseUint(s, 10, 64), with a default where it fails or is not called.
unfoldable pub uint_or : ℕ → Text → ℕ
unfolding parse_radix
uint_or d s = elim (parse_radix 10 s) [ none ↦ d | some n ↦ if ltb n (2 ^ 64) then n else d ]

-- strconv.Atoi(l), where it is positive.
unfoldable pub limit_of : Text → ℕ
unfolding parse_radix
limit_of l = elim (parse_radix 10 l) [
  | none ↦ 50
  | some n ↦ if ltb 0 n && ltb n (2 ^ 63) then n else 50
]

unfoldable pub bounded : ℕ → ℕ
bounded limit = if limit == 0 then 50 else if ltb 500 limit then 500 else limit

abbrev pub Entry : Type 0
Entry = ℕ × Text

-- What the cursor of Scan(start, end) goes through.
abbrev pub within : ℕ → ℕ → List Entry → List Entry
within start end store = keep (λ e. leb start e.0 && leb e.0 end) store

abbrev pub raw_of : Entry → RawRecord
raw_of e = record { key_text = to_decimal e.0; value = e.1 }

-- The end of ScanRecordsBounded: `beyond` is what was fetched after the limit, one entry at most.
unfoldable pub page_from : ℕ → List Entry → List Entry → Page
unfolding to_decimal
page_from limit fetched [] = record {
  records = map raw_of fetched;
  next_key_text = units "0";
  has_more = false;
}
page_from limit fetched (e ∷ beyond) = record {
  records = map raw_of (take limit fetched);
  next_key_text = to_decimal e.0;
  has_more = true;
}

abbrev pub page_of : ℕ → List Entry → Page
page_of limit fetched = page_from limit fetched (drop limit fetched)

unfoldable pub scan_records_bounded : List Entry → ℕ → ℕ → ℕ → Page
unfolding page_from bounded
scan_records_bounded store start end limit =
    page_of (bounded limit) (take (bounded limit + 1) (within start end store))

unfoldable pub get_records : List Entry → Text → Page
unfolding query_get uint_or limit_of scan_records_bounded
get_records store url =
    scan_records_bounded store (uint_or 0 (query_get (units "start=") url))
      (uint_or (2 ^ 64 - 1) (query_get (units "end=") url))
      (limit_of (query_get (units "limit=") url))
