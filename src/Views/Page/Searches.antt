-- ===== src/Views/Page/Searches.antt =====
-- RecordsView.tsx: the search bar and the banner over a session of the explorer. What the user can
-- do there is what the two offer for the view as it is; the other events may come in between.
use beast_db.Prelude.{
  ℕ, ◌≡◌, refl, ◌∙◌, Bool, true, false, not, ◌||◌, Option, none, some, List, [], ◌∷◌, all, All,
  take_out-All, count, count-take_out, length, take_out, arith, if◌then◌else◌, Option-cases, inl,
  inr, length-append,
}
use beast_db.Js.Text.{Text}
use beast_db.Partitions.{Partition, Tally}
use beast_db.Hooks.Api.{Result, failed, done}
use beast_db.Explorer.{
  View, Pending, searching, continuing, looking, scanning, Session, SearchMeta, search_text,
  continue_scan, lookup_key, scan, clear_search,
}
use beast_db.Explorer.Events.{
  ReplyOf, list_partitions, choose, type_query, type_key, type_range, click_continue, click_clear,
  arrive, handle, settle,
}
use beast_db.Views.Html.{Html, ◌⊕◌, every, calls}
use beast_db.Views.Html.Laws.{all-calls}
use beast_db.Views.Formats.{Formats}
use beast_db.Views.SearchBar.{global_search_bar}
use beast_db.Views.SearchBar.Calls.{every-global_search_bar}
use beast_db.Views.Banner.{search_coverage_banner}
use beast_db.Views.Banner.Calls.{every-search_coverage_banner}
use beast_db.Views.Page.{Action, Props, bar_props, banner_props, banner}

-- What a call of the search bar or of the banner does to the session; the two modes and the bar's
-- own variables are not in it.
perform : Action → Session → Session
unfolding handle
perform (Action.search_text query prefix) s = handle (type_query query prefix) s
perform (Action.lookup_key key) s = handle (type_key key) s
perform (Action.scan_range start_key end_key) s = handle (type_range start_key end_key) s
perform Action.continue_scan s = handle click_continue s
perform Action.clear s = handle click_clear s
perform a s = s

controls : Formats → Props → View → Html Action
controls f p v = global_search_bar (bar_props p v) ⊕ banner f p v v.search_meta

pub data Gesture : Type 0 where
  -- The call at a place among those that are offered.
  press : Props → ℕ → Gesture
  receive : ℕ → ((p : Pending) → Result (ReplyOf p)) → Gesture
  open_partition : ℕ → Gesture
  count_partitions : Tally → List Partition → Gesture

pressed : Option (Action × List Action) → Session → Session
unfolding perform
pressed none s = s
pressed (some (a, rest)) s = perform a s

unfoldable pub gesture : Formats → Gesture → Session → Session
unfolding pressed controls global_search_bar bar_props banner handle take_out
gesture f (press p i) s = pressed (take_out (calls (controls f p s.view)) i) s
gesture f (receive i answer) s = handle (arrive i answer) s
gesture f (open_partition p) s = handle (choose p) s
gesture f (count_partitions counts list) s = handle (list_partitions counts list) s

unfoldable pub use_page : Formats → List Gesture → Session → Session
unfolding gesture
use_page f [] s = s
use_page f (g ∷ gs) s = use_page f gs (gesture f g s)

-- The session waits for one call while the page is busy, and for none else.
abbrev pub IsSingle : Session → Type 0
IsSingle s = length s.pending ≡ (if s.view.busy then 1 else 0)

abbrev is_search : Action → Bool
is_search (Action.search_text query prefix) = true
is_search (Action.lookup_key key) = true
is_search (Action.scan_range start_key end_key) = true
is_search Action.continue_scan = true
is_search a = false

-- Nothing that would begin a search is offered while the page is busy.
abbrev is_allowed : Bool → Action → Bool
is_allowed busy a = not busy || not (is_search a)

all-All {ℓ} : {A : Type ℓ} (q : A → Bool) (xs : List A) → all q xs ≡ true → All (λ x. q x ≡ true) xs
all-All q [] h = tt
all-All q (x ∷ xs) h = (ground arith, all-All q xs (ground arith))

module _ (f : Formats) (p : Props) (v : View) where
  every-search_bar : every (is_allowed v.busy) (global_search_bar (bar_props p v)) ≡ true
  unfolding bar_props
  every-search_bar =
      every-global_search_bar (is_allowed v.busy) (bar_props p v) (λ t o. ground arith)
        (λ t. ground arith) (λ a b. ground arith) (λ m. ground arith)

  every-banner_props :
      (m : SearchMeta)
      → every (is_allowed v.busy) (search_coverage_banner f (banner_props p v m)) ≡ true
  unfolding banner_props
  every-banner_props m =
      every-search_coverage_banner (is_allowed v.busy) f (banner_props p v m)
        (Action.continue_scan ∷ []) refl (ground arith) (ground arith)

  every-banner : (o : Option SearchMeta) → every (is_allowed v.busy) (banner f p v o) ≡ true
  unfolding banner
  every-banner none = ground arith
  every-banner (some m) = ground (arith, every-banner_props m)

  all-controls : all (is_allowed v.busy) (calls (controls f p v)) ≡ true
  unfolding controls
  all-controls =
      all-calls (is_allowed v.busy) (controls f p v)
      ∙ ground (arith, every-search_bar, every-banner v.search_meta)

abbrev with_meta : Session → Option SearchMeta → Session
with_meta s o = record s { view = record (s.view) { search_meta = o } }

abbrev with_key : SearchMeta → Option Text → SearchMeta
with_key m k = record m { found = record (m.found) { next_key = k } }

continue_scan-key :
    (s : Session) (m : SearchMeta) (k : Option Text)
    → s.view.busy ≡ false
    → IsSingle s
    → IsSingle (continue_scan (with_meta s (some (with_key m k))))
unfolding continue_scan
continue_scan-key s m none e h = ground arith
continue_scan-key s m (some []) e h = ground arith
continue_scan-key s m (some (u ∷ k)) e h =
    ground (arith, length-append s.pending (continuing (with_key m (some (u ∷ k))) ∷ []))

continue_scan-meta :
    (s : Session) (o : Option SearchMeta)
    → s.view.busy ≡ false
    → IsSingle s
    → IsSingle (continue_scan (with_meta s o))
unfolding continue_scan
continue_scan-meta s none e h = ground arith
continue_scan-meta s (some m) e h = continue_scan-key s m m.found.next_key e h

perform-IsSingle :
    (a : Action) (s : Session)
    → is_allowed s.view.busy a ≡ true
    → IsSingle s
    → IsSingle (perform a s)
unfolding perform handle search_text lookup_key scan clear_search
perform-IsSingle (Action.search_text query prefix) s h k =
    ground (arith, length-append s.pending (searching query ∷ []))
perform-IsSingle (Action.lookup_key key) s h k =
    ground (arith, length-append s.pending (looking ∷ []))
perform-IsSingle (Action.scan_range start_key end_key) s h k =
    ground (arith, length-append s.pending (scanning ∷ []))
perform-IsSingle Action.continue_scan s h k =
    continue_scan-meta s s.view.search_meta (ground arith) k
perform-IsSingle _ s h k = k

pressed-IsSingle :
    (s : Session) (os : List Action) (i : ℕ)
    → all (is_allowed s.view.busy) os ≡ true
    → IsSingle s
    → IsSingle (pressed (take_out os i) s)
unfolding pressed
pressed-IsSingle s os i h k = elim (Option-cases (take_out os i)) [
  | inl e ↦ rw e k
  | inr ((a, rest), e) ↦ rw e (
      perform-IsSingle a s
        (take_out-All (λ b. is_allowed s.view.busy b ≡ true) os i a rest e (all-All _ os h)).0 k)
]

settle_busy : (p : Pending) (r : Result (ReplyOf p)) (v : View) → (settle p r v).busy ≡ false
unfolding settle
settle_busy p (failed m) v = refl
settle_busy p (done r) v = refl

count_always : (ps : List Pending) → count (λ x. true) ps ≡ length ps
count_always [] = refl
count_always (x ∷ ps) = omega (arith, count_always ps)

receive-IsSingle :
    (i : ℕ) (answer : (p : Pending) → Result (ReplyOf p)) (s : Session)
    → IsSingle s
    → IsSingle (handle (arrive i answer) s)
unfolding handle
receive-IsSingle i answer s h = elim (Option-cases (take_out s.pending i)) [
  | inl e ↦ rw e h
  | inr ((p, ps), e) ↦
      let all_one = count-take_out (λ x. true) s.pending i p ps e in
      rw e (
        ground (
          arith,
          settle_busy p (answer p) s.view,
          all_one,
          count_always s.pending,
          count_always ps,
        ))
]

gesture-IsSingle : (f : Formats) (g : Gesture) (s : Session) → IsSingle s → IsSingle (gesture f g s)
unfolding gesture
gesture-IsSingle f (press p i) s h =
    pressed-IsSingle s (calls (controls f p s.view)) i (all-controls f p s.view) h
gesture-IsSingle f (receive i answer) s h = receive-IsSingle i answer s h
gesture-IsSingle f (open_partition p) s h = h
gesture-IsSingle f (count_partitions none list) s h = h
gesture-IsSingle f (count_partitions (some counts) []) s h = h
gesture-IsSingle f (count_partitions (some counts) (x ∷ list)) s h = ground arith

-- However the search bar and the banner are used, and in whatever order answers come in and
-- partitions are opened in between, at most one search is under way, and the page is busy exactly
-- while there is one, if that held before.
pub use_page-IsSingle :
    (f : Formats) (gs : List Gesture) (s : Session) → IsSingle s → IsSingle (use_page f gs s)
unfolding use_page
use_page-IsSingle f [] s h = h
use_page-IsSingle f (g ∷ gs) s h = use_page-IsSingle f gs (gesture f g s) (gesture-IsSingle f g s h)
