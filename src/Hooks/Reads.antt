-- ===== src/Hooks/Reads.antt =====
-- useStudioData.ts: lookup, scanRange and search, which keep no state: what they ask for, and what
-- they make of the answer. An argument that cannot be encoded throws, and is `none` here.
pub mod Searches
use mathlib.Core.Option
use beast_db.Prelude.{ℕ, ◌==◌, Bool, Option, none, some, List, [], ◌∷◌, ◌++◌, map, if◌then◌else◌}
use beast_db.Js.Text.{Text, units}
use beast_db.Js.Case.{CaseMap}
use beast_db.Js.Platform.{Platform}
use beast_db.Js.BigInt.{to_decimal}
use beast_db.Js.Uri.{encode_uri_component}
use beast_db.Types.{UniversalRecord, SearchResponse}
use beast_db.Keys.Registry.{Registries}
use beast_db.Payload.Parse.{parse_universal_record}
use beast_db.Hooks.Api.{Result, failed, done, Reply, api}
use beast_db.Hooks.Data.{RawRecord, Page}

unfoldable pub lookup_url : Text → Option Text
lookup_url key = Option.map (λ e. units "/api/key?k=" ++ e) (encode_uri_component key)

range_end : Text → Option Text → Option Text
range_end first none = none
range_end first (some last) =
    some (units "/api/records?start=" ++ first ++ units "&end=" ++ last ++ units "&limit=100")

range_start : Option Text → Text → Option Text
unfolding range_end
range_start none end_key = none
range_start (some first) end_key = range_end first (encode_uri_component end_key)

unfoldable pub scan_url : Text → Text → Option Text
unfolding range_start
scan_url start_key end_key = range_start (encode_uri_component start_key) end_key

-- The options of search.
pub record SearchOptions : Type 0 where
  pub prefix : Option ℕ
  pub start : Option Text
  pub max_scan : Option ℕ

-- params.set(name, …), for an option that is neither absent, nor 0, nor empty.
number_param : Text → Option ℕ → List (Text × Text)
unfolding to_decimal
number_param name none = []
number_param name (some n) = if n == 0 then [] else (name, to_decimal n) ∷ []

text_param : Text → Option Text → List (Text × Text)
text_param name none = []
text_param name (some []) = []
text_param name (some (u ∷ s)) = (name, u ∷ s) ∷ []

-- The URLSearchParams of search, in order.
unfoldable pub search_params : Text → SearchOptions → List (Text × Text)
unfolding number_param text_param
search_params q o =
    (units "q", q)
    ∷ (units "limit", units "50")
    ∷ (number_param (units "prefix") o.prefix
        ++ (text_param (units "start") o.start ++ number_param (units "maxScan") o.max_scan))

-- The body of an answer to a search.
pub record RawResponse : Type 0 where
  pub records : List RawRecord
  pub count : ℕ
  pub scanned_count : ℕ
  pub next_key : Option Text
  pub has_more : Bool
  pub prefix : Option ℕ

module _ ⦃c : CaseMap⦄ (js : Platform) (s : Registries) where
  pub parse_raw : RawRecord → UniversalRecord
  parse_raw raw = parse_universal_record js s raw.key_text (some raw.value)

  -- `use` says what is made of a value; `undefined` has no property to read.
  on_value {ℓ} : {A B : Type ℓ} → Text → (A → B) → Result (Option A) → Result B
  on_value property use_it (failed m) = failed m
  on_value property use_it (done none) = failed (js.no_property property)
  on_value property use_it (done (some a)) = done (use_it a)

  unfoldable pub lookup_result : Text → Reply RawRecord → Result UniversalRecord
  unfolding on_value parse_raw
  lookup_result url r = on_value (units "keyText") parse_raw (api url r)

  unfoldable pub scan_result : Text → Reply Page → Result (List UniversalRecord)
  unfolding on_value parse_raw
  scan_result url r = on_value (units "records") (λ page. map parse_raw page.records) (api url r)

  unfoldable pub search_result : Text → Reply RawResponse → Result SearchResponse
  unfolding on_value parse_raw
  search_result url r =
      on_value (units "records")
        (λ res. record {
          records = map parse_raw res.records;
          count = res.count;
          scanned_count = res.scanned_count;
          next_key = res.next_key;
          has_more = res.has_more;
          prefix = res.prefix;
        })
        (api url r)
