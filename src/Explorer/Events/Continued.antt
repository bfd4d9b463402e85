-- ===== src/Explorer/Events/Continued.antt =====
-- RecordsView.tsx: handleContinueScan, page by page.
use beast_db.Prelude.{
  ℕ, ◌+◌, ◌≡◌, refl, sym, ◌∙◌, ap, Bool, true, false, Option, none, some, List, [], ◌∷◌, ◌++◌,
  arith, append_assoc, append-nil,
}
use beast_db.Js.Text.{Text}
use beast_db.Types.{UniversalRecord, SearchResponse}
use beast_db.Hooks.Api.{Result, failed, done}
use beast_db.Explorer.{
  SearchMeta, Call, search, Pending, searching, continuing, looking, scanning, Session, begin,
  continue_scan,
}
use beast_db.Explorer.Events.{ReplyOf, Event, click_continue, arrive, run}

-- The server's answer to a search.
abbrev pub with_response : SearchResponse → (p : Pending) → Result (ReplyOf p)
with_response res (searching query) = done res
with_response res (continuing m) = done res
with_response res looking = failed []
with_response res scanning = failed []

-- A click on `continue`, and its answer.
abbrev pub go_on : List SearchResponse → List Event
go_on [] = []
go_on (res ∷ more) = click_continue ∷ arrive 0 (with_response res) ∷ go_on more

abbrev pub has_next : Option Text → Bool
has_next (some (u ∷ k)) = true
has_next _ = false

-- Each answer but the last ends with a key, from which the search can go on.
abbrev pub Continues : Option Text → List SearchResponse → Type 0
Continues key [] = Unit
Continues key (res ∷ more) = (has_next key ≡ true) × Continues res.next_key more

abbrev pub all_records : List SearchResponse → List UniversalRecord
all_records [] = []
all_records (res ∷ more) = res.records ++ all_records more

abbrev pub total : (SearchResponse → ℕ) → List SearchResponse → ℕ
total f [] = 0
total f (res ∷ more) = f res + total f more

-- Nothing waits, and a search is shown with its records and its numbers.
pub record IsShowing (list : List UniversalRecord) (m : SearchMeta) (s : Session) : Type 0 where
  pub none_waits : s.pending ≡ []
  pub results : s.view.search_results ≡ some list
  pub meta : s.view.search_meta ≡ some m

merge : SearchMeta → SearchResponse → SearchMeta
merge m res = record {
  query = m.query;
  found = record res {
    count = m.found.count + res.count;
    scanned_count = m.found.scanned_count + res.scanned_count;
  };
}

next-of : (key : Option Text) → has_next key ≡ true → (u : ℕ) × (k : Text) × (key ≡ some (u ∷ k))
next-of none h = cc
next-of (some []) h = cc
next-of (some (u ∷ k)) h = (u, k, refl)

continue_scan-IsShowing :
    (list : List UniversalRecord) (m : SearchMeta) (s : Session) (u : ℕ) (k : Text)
    → IsShowing list m s
    → m.found.next_key ≡ some (u ∷ k)
    → continue_scan s ≡ begin (continuing m) (search m.query m.found.prefix (some (u ∷ k))) s
unfolding continue_scan
continue_scan-IsShowing list m s u k h e = rw (h.meta, e) refl

IsShowing-round :
    (list : List UniversalRecord) (m : SearchMeta) (res : SearchResponse) (s : Session)
    → IsShowing list m s
    → has_next m.found.next_key ≡ true
    → IsShowing
        (list ++ res.records)
        (merge m res)
        (run (click_continue ∷ arrive 0 (with_response res) ∷ []) s)
unfolding run merge begin
IsShowing-round list m res s h n =
    let (u, k, e) = next-of m.found.next_key n in
    rw (continue_scan-IsShowing list m s u k h e, h.none_waits)
      record { none_waits = refl; results = rw h.results refl; meta = refl }

calls-round :
    (list : List UniversalRecord) (m : SearchMeta) (res : SearchResponse) (s : Session)
    → IsShowing list m s
    → has_next m.found.next_key ≡ true
    → (run (click_continue ∷ arrive 0 (with_response res) ∷ []) s).calls
      ≡ s.calls ++ search m.query m.found.prefix m.found.next_key ∷ []
unfolding run begin
calls-round list m res s h n =
    let (u, k, e) = next-of m.found.next_key n in
    rw (continue_scan-IsShowing list m s u k h e, h.none_waits, e) refl

-- The calls that read further pages: the same query, in the partition of the answer before and from
-- the key with which it ended.
abbrev pub asked : Text → Option ℕ → Option Text → List SearchResponse → List Call
asked query prefix key [] = []
asked query prefix key (res ∷ more) =
    search query prefix key ∷ asked query res.prefix res.next_key more

-- What a search has asked for and shows after further pages.
pub record IsTotal (list : List UniversalRecord) (m : SearchMeta) (pages : List SearchResponse)
    (before after : Session) : Type 0 where
  pub calls : after.calls ≡ before.calls ++ asked m.query m.found.prefix m.found.next_key pages
  pub records : after.view.search_results ≡ some (list ++ all_records pages)
  pub last : SearchMeta
  pub meta : after.view.search_meta ≡ some last
  pub query : last.query ≡ m.query
  pub count : last.found.count ≡ m.found.count + total (λ r. r.count) pages
  pub scanned :
      last.found.scanned_count ≡ m.found.scanned_count + total (λ r. r.scanned_count) pages

-- Where a search is shown and nothing waits: clicks on `continue`, each answered by a further page,
-- call the search for the same query once for each page, in the partition of the answer before it
-- and from the key with which that one ended, as long as each answer but the last has such a key;
-- the records of all pages are shown in order, and the numbers of matches and of scanned keys are
-- the sums.
pub run-IsTotal :
    (pages : List SearchResponse) (list : List UniversalRecord) (m : SearchMeta) (s : Session)
    → IsShowing list m s
    → Continues m.found.next_key pages
    → IsTotal list m pages s (run (go_on pages) s)
unfolding run merge
run-IsTotal [] list m s h c = record {
  calls = sym (append-nil s.calls);
  records = h.results ∙ ap some (sym (append-nil list));
  last = m;
  meta = h.meta;
  query = refl;
  count = omega arith;
  scanned = omega arith;
}
run-IsTotal (res ∷ pages) list m s h (n, c) =
    let rest =
      run-IsTotal pages (list ++ res.records) (merge m res) _ (IsShowing-round list m res s h n)
        (unfold merge in c) in
    record {
      calls =
          rest.calls
          ∙ ap (λ c. c ++ asked m.query res.prefix res.next_key pages)
              (calls-round list m res s h n)
          ∙ append_assoc s.calls (search m.query m.found.prefix m.found.next_key ∷ []) _;
      records = rest.records ∙ ap some (append_assoc list res.records (all_records pages));
      last = rest.last;
      meta = rest.meta;
      query = rest.query ∙ (unfold merge in refl);
      count = rest.count ∙ (unfold merge in omega arith);
      scanned = rest.scanned ∙ (unfold merge in omega arith);
    }
