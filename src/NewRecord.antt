-- ===== src/NewRecord.antt =====
-- studio/src/components/NewRecordDialog.tsx: the dialog as a state, and what its events do. The
-- form is submitted up to the lookup; the answers of the lookup and of the save come later.
pub mod Fields
pub mod Properties
pub mod View
pub mod Keys
pub mod Saves
pub mod Lookups
use beast_db.Prelude.{
  ℕ, ◌^◌, Bool, true, false, not, ◌&&◌, Option, none, some, List, [], ◌∷◌, ◌++◌, ltb, leb, ◌==◌,
  take_out, if◌then◌else◌,
}
use beast_db.Js.Text.{Text, units, same, trim}
use beast_db.Js.BigInt.{ℤ, pos, negsuc, parse_big_int}
use beast_db.Js.Regex.{Regex, unit, seq, alt, star, is_digit, test}
use beast_db.Js.Platform.{Platform}
use beast_db.Keys.Format.{fnv1a64, build_structured_key}
use beast_db.Hooks.Api.{Result, failed, done}
use beast_db.NewRecord.Fields.{Field, build_fields}

pub data KeyMode : Type 0 where
  raw builder hash : KeyMode

-- The variables of useState; `by_builder` is mode === "builder". The two flags of the end say
-- whether the dialog is open, and whether the notice of success has been given.
pub record Dialog : Type 0 where
  pub key_mode : KeyMode
  pub key : Text
  pub seed : Text
  pub prefix : ℕ
  pub domain : Text
  pub item_id : Text
  pub by_builder : Bool
  pub raw : Text
  pub fields : List Field
  pub busy : Bool
  pub error : Text
  pub is_open : Bool
  pub created : Bool

-- onLookup and onSave, with the key and the value that the form had when it was submitted.
pub data Step : Type 0 where
  looking saving : Text → Text → Step

pub record Session : Type 0 where
  pub dialog : Dialog
  pub pending : List Step
  pub saves : List (Text × Text)

unfoldable pub resolved_key : Dialog → Text
resolved_key d = elim d.key_mode [
  | raw ↦ d.key
  | hash ↦ fnv1a64 (trim d.seed)
  | builder ↦ build_structured_key d.prefix d.domain d.item_id
]

-- /^(0|[1-9]\d*)$/
unfoldable pub key_re : Regex
key_re =
    alt (unit (λ u. u == b'0')) (seq (unit (λ u. leb b'1' u && leb u b'9')) (star (unit is_digit)))

-- BigInt(finalKey) > 18446744073709551615n; a SyntaxError goes past the handler.
abbrev pub too_large : ℤ → Bool
too_large (pos n) = not (ltb n (2 ^ 64))
too_large (negsuc n) = false

unfoldable pub is_key : Text → Option Bool
is_key k =
    if test key_re k
    then elim (parse_big_int k) [ none ↦ none | some n ↦ some (not (too_large n)) ]
    else some false

abbrev set_error : Text → Session → Session
set_error m s = record s { dialog = record (s.dialog) { error = m } }

begin_lookup : Text → Text → Session → Session
begin_lookup k [] s = set_error (units "Enter a value to save.") s
begin_lookup k (u ∷ v) s = record s {
  dialog = record (s.dialog) { busy = true };
  pending = s.pending ++ looking k (u ∷ v) ∷ [];
}

with_value : Text → Result Text → Session → Session
unfolding begin_lookup
with_value k (failed m) s = set_error m s
with_value k (done v) s = begin_lookup k v s

module _ (js : Platform) where
  value_of : Dialog → Result Text
  unfolding build_fields
  value_of d = if d.by_builder then build_fields js d.fields else done d.raw

  with_key : Text → Option Bool → Session → Session
  unfolding with_value value_of
  with_key k none s = s
  with_key k (some false) s = set_error (units "Key is not a valid uint64 decimal.") s
  with_key k (some true) s = with_value k (value_of s.dialog) s

  -- submit, up to its first await
  unfoldable pub submit : Session → Session
  unfolding with_key resolved_key is_key
  submit s = let k = resolved_key s.dialog in with_key k (is_key k) (set_error [] s)

abbrev stop : Dialog → Dialog
stop d = record d { busy = false }

-- The answer of the lookup: only a record that is not there lets the save go on.
unfoldable pub looked : Text → Text → Result (Unit {0}) → Session → Session
looked k v (done u) s = record s {
  dialog = record (stop s.dialog) {
    error = units "This key already exists. Choose another to avoid overwriting.";
  };
}
looked k v (failed m) s =
    if same m (units "That record was not found.")
    then record s { pending = s.pending ++ saving k v ∷ []; saves = s.saves ++ (k, v) ∷ [] }
    else record s { dialog = record (stop s.dialog) { error = m } }

-- The answer of the save.
unfoldable pub saved : Result (Unit {0}) → Session → Session
saved (failed m) s = record s { dialog = record (stop s.dialog) { error = m } }
saved (done u) s = record s {
  dialog = record (stop s.dialog) {
    key = [];
    raw = [];
    seed = [];
    domain = [];
    item_id = [];
    is_open = false;
    created = true;
  };
}

-- `edit` is a change of the form by the user.
pub data Event : Type 0 where
  edit : Dialog → Event
  submitted : Event
  answered : ℕ → Result (Unit {0}) → Event

answer : Option (Step × List Step) → Result (Unit {0}) → Session → Session
unfolding looked saved
answer none r s = s
answer (some (looking k v, ps)) r s = looked k v r (record s { pending = ps })
answer (some (saving k v, ps)) r s = saved r (record s { pending = ps })

module _ (js : Platform) where
  unfoldable pub handle : Event → Session → Session
  unfolding submit answer take_out
  handle (edit d) s = record s {
    dialog = record d { busy = s.dialog.busy; error = s.dialog.error; created = s.dialog.created };
  }
  handle submitted s = submit js s
  handle (answered i r) s = answer (take_out s.pending i) r s

  unfoldable pub run : List Event → Session → Session
  unfolding handle
  run [] s = s
  run (e ∷ es) s = run es (handle e s)
