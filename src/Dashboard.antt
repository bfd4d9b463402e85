-- ===== src/Dashboard.antt =====
-- internal/web/static/js/dashboard.js: the page as a state, and a handler for each event of the
-- page. An `async` function runs to its first `await`, which leaves its request in flight, and goes
-- on when the outcome of that request arrives: other events may come in between.
pub mod Events
use mathlib.Core.Option
use beast_db.Prelude.{
  ℕ, zero, suc, ◌+◌, ◌≤◌, Bool, true, false, not, ◌&&◌, Option, none, some, List, [], ◌∷◌, ◌++◌,
  or_else, keep, ltb, leb, ◌==◌, if◌then◌else◌,
}
use beast_db.Js.Text.{Text, units, trim}
use beast_db.Js.Json.{Json, null, num, str, obj, end, field, get, entries, coalesce, to_text}
use beast_db.Js.BigInt.{to_decimal}
use beast_db.Js.Uri.{encode_uri_component}
use beast_db.Js.Platform.{Platform}
use beast_db.Js.Fetch.{Request, is_ok}

pub data Kind : Type 0 where
  success error : Kind

pub record Toast : Type 0 where
  pub id : ℕ
  pub message : Text
  pub kind : Kind

-- The elements of the page that the script reads and writes.
pub record Page : Type 0 where
  pub search_key : Text
  pub mutation_key : Text
  pub mutation_val : Text
  pub inspector : Text
  pub inspector_error : Bool
  pub stat_lsn : Text
  pub stat_role : Text
  pub stat_mode : Text
  pub toasts : List Toast
  pub next_toast : ℕ
  pub clipboard : Text

-- The call that waits for a response.
pub data Pending : Type 0 where
  telemetry : Pending
  getting : Text → Pending
  putting : Text → Text → Pending
  deleting : Text → Pending

-- What became of a request: no response; a response whose body cannot be read; a response.
pub data Outcome : Type 0 where
  lost : Outcome
  cut : ℕ → Outcome
  full : ℕ → Text → Outcome

pub record Session : Type 0 where
  pub page : Page
  pub pending : List Pending
  pub sent : List Request

-- showToast; `expire` is its timer, which removes the element that its closure holds. The number
-- of a toast stands for the identity of that element, which no other element shares.
unfoldable pub show_toast : Text → Kind → Page → Page
show_toast msg kind p = record p {
  toasts = p.toasts ++ record { id = p.next_toast; message = msg; kind = kind } ∷ [];
  next_toast = p.next_toast + 1;
}

unfoldable pub expire : ℕ → Page → Page
expire id p = record p { toasts = keep (λ t. not (t.id == id)) p.toasts }

-- The argument of updateInspector.
pub data Shown : Type 0 where
  object : Json → Shown
  text : Text → Shown

module _ (js : Platform) where
  shown_text : Shown → Text
  shown_text (object j) = js.pretty j
  shown_text (text s) = or_else (Option.map js.pretty (js.parse_json s)) s

  unfoldable pub update_inspector : Shown → Bool → Page → Page
  unfolding shown_text
  update_inspector shown is_error p = record p {
    inspector = shown_text shown;
    inspector_error = is_error;
  }

  -- The properties of a value; null has none to read.
  abbrev properties : Json → Option (List (Text × Json))
  properties null = none
  properties (obj fs) = some (entries fs)
  properties j = some []

  stat : Option Json → Text → Text
  stat none d = d
  stat (some null) d = d
  stat (some j) d = to_text j

  show_stats : List (Text × Json) → Page → Page
  unfolding stat
  show_stats o p = record p {
    stat_lsn = units "#" ++ stat (get o (units "lsn")) (units "0");
    stat_role = stat (get o (units "role")) (units "Leader");
    stat_mode = stat (get o (units "mode")) (units "B+ Tree / WAL");
  }

  -- An error here goes to console.debug alone.
  pub finish_telemetry : Outcome → Page → Page
  unfolding show_stats
  finish_telemetry lost p = p
  finish_telemetry (cut status) p = p
  finish_telemetry (full status body) p =
      if is_ok status
      then elim (js.parse_json body) [
        | none ↦ p
        | some j ↦ elim (properties j) [ none ↦ p | some o ↦ show_stats o p ]
      ]
      else p

  finish_get : Text → Outcome → Page → Page
  unfolding show_toast update_inspector to_decimal
  finish_get key (full status body) p =
      if is_ok status
      then show_toast (units "Key " ++ key ++ units " loaded successfully") success
          (update_inspector (text body) false p)
      else show_toast
          (units "Key " ++ key ++ units " not found (" ++ to_decimal status ++ units ")") error
          (update_inspector (text (units "HTTP " ++ to_decimal status ++ units ": " ++ body)) true
            p)
  finish_get key _ p = show_toast (units "Network error executing GET") error p

  committed : Text → Text → Json
  committed key raw = obj (
      field (units "status") (str (units "COMMITTED"))
        (field (units "key") (js.number key) (field (units "payload") (str raw) end)))

  write_done : Text → Text → Page → Page
  unfolding committed show_toast update_inspector
  write_done key raw p =
      update_inspector (object (committed key raw)) false
        (show_toast (units "Key " ++ key ++ units " committed to WAL & B+ Tree") success p)

  -- The flag says whether telemetry is fetched again.
  finish_put : Text → Text → Outcome → Page → Page × Bool
  unfolding write_done
  finish_put key raw (full status body) p =
      if is_ok status
      then (write_done key raw p, true)
      else (show_toast (units "Write error: " ++ body) error p, false)
  finish_put key raw (cut status) p =
      if is_ok status
      then (write_done key raw p, true)
      else (show_toast (units "Network error executing write") error p, false)
  finish_put key raw lost p = (show_toast (units "Network error executing write") error p, false)

  deleted : Text → Json
  deleted key =
      obj (field (units "status") (str (units "DELETED")) (field (units "key") (js.number key) end))

  after_delete : Text → ℕ → Page → Page × Bool
  unfolding deleted show_toast update_inspector to_decimal
  after_delete key status p =
      if is_ok status
      then (
        update_inspector (object (deleted key)) false
            (show_toast (units "Key " ++ key ++ units " deleted with WAL tombstone") success p),
        true,
      )
      else (show_toast (units "Delete failed (" ++ to_decimal status ++ units ")") error p, false)

  -- The body of the response is not read.
  finish_delete : Text → Outcome → Page → Page × Bool
  unfolding after_delete
  finish_delete key (full status body) p = after_delete key status p
  finish_delete key (cut status) p = after_delete key status p
  finish_delete key lost p = (show_toast (units "Network error executing delete") error p, false)
