-- ===== src/Hooks/Data/Events/Reading.antt =====
-- useStudioData.ts: a partition read page by page from the server of Server.
use mathlib.Core.List.{map-append}
use beast_db.Prelude.{
  ℕ, zero, suc, ◌+◌, ◌*◌, ◌^◌, ◌<◌, ◌≤◌, ◌≡◌, refl, sym, ◌∙◌, ap, true, false, none, some, List, [],
  ◌∷◌, ◌++◌, map, append_assoc, append-nil, append-take-drop, take, drop, length, length-drop, All,
  arith, leb, ◌&&◌, take_out,
}
use beast_db.Js.Text.{units}
use beast_db.Js.Case.{CaseMap}
use beast_db.Js.Platform.{Platform}
use beast_db.Js.BigInt.{to_decimal}
use beast_db.Types.{UniversalRecord}
use beast_db.Keys.Registry.{Registries}
use beast_db.Hooks.Api.{done, lost, response}
use beast_db.Hooks.Ranges.{start_key, end_key}
use beast_db.Hooks.Data.{
  Page, Studio, Call, partition, listing, counts, poll, more, write, Session, more_url, load_more,
  load_partition, partition_url,
}
use beast_db.Hooks.Data.Events.{ReplyOf, Event, open_partition, click_more, arrive, parse_page, run}
use beast_db.Hooks.Data.Events.Pages.{load_more-IsIdle, read}
use beast_db.Server.{Entry, within, raw_of, page_of, get_records, scan_records_bounded, bounded}
use beast_db.Server.Scans.{IsStore, Tells, page_of-rest, drop-All, keep-All, within-drop}
use beast_db.Server.Queries.{partition_text, more_text, get_records-partition, get_records-more}

-- The server answers what is asked for records; no other call is under way.
abbrev pub serve : List Entry → (c : Call) → ReplyOf c
serve store (partition url) = response 200 (done []) (done (get_records store url))
serve store (more url) = response 200 (done []) (done (get_records store url))
serve store listing = record { page = lost; me = lost; partitions = lost }
serve store counts = lost
serve store poll = lost
serve store (write url) = lost

abbrev pub clicks : List Entry → ℕ → List Event
clicks store zero = []
clicks store (suc n) = click_more ∷ arrive 0 0 (serve store) ∷ clicks store n

-- The partition is opened, and then `load more` is clicked.
abbrev pub reading : List Entry → ℕ → ℕ → List Event
reading store p n = open_partition p ∷ arrive 0 0 (serve store) ∷ clicks store n

abbrev pub entries_of : List Entry → ℕ → List Entry
entries_of store p = within (start_key p) (end_key p) store

abbrev last_page : List Entry → Page
last_page es = record { records = map raw_of es; next_key_text = units "0"; has_more = false }

module _ ⦃c : CaseMap⦄ (js : Platform) (r : Registries) where
  abbrev pub shown : List Entry → List UniversalRecord
  shown es = parse_page js r (last_page es)

  shown-append : (es fs : List Entry) → shown (es ++ fs) ≡ shown es ++ shown fs
  unfolding parse_page
  shown-append es fs =
      ap (map _) (map-append raw_of es fs) ∙ map-append _ (map raw_of es) (map raw_of fs)

module _ ⦃c : CaseMap⦄ (js : Platform) (store : List Entry) (p : ℕ) (r : Registries) where
  -- What is left of the partition from a key on, and its next page.
  abbrev entries : ℕ → List Entry
  entries j = within j (end_key p) store

  abbrev page : ℕ → Page
  page j = page_of 100 (take 101 (entries j))

  -- What the hook knows of the entries that are left.
  abbrev Knows : List Entry → Studio → Type 0
  Knows [] h = h.has_more ≡ false
  Knows (e ∷ es) h =
      (h.has_more ≡ true)
      × (h.next_key ≡ to_decimal e.0)
      × (e.0 < 2 ^ 64)
      × (within e.0 (end_key p) store ≡ e ∷ es)

  record IsReading (rest : List Entry) (s : Session) : Type 0 where
    quiet : s.pending ≡ []
    still : s.hook.loading_more ≡ false
    opened : s.hook.active_partition ≡ some p
    same : s.registries ≡ r
    known : Knows rest s.hook
    kept : s.hook.records ++ shown js r rest ≡ shown js r (entries_of store p)

  module _ (small : p < 256) (sorted : IsStore store) (fits : All (λ e. e.0 < 2 ^ 64) store) where
    Knows-rest :
        (j : ℕ) (rest : List Entry) (h : Studio)
        → drop 100 (entries j) ≡ rest
        → Tells rest h.has_more h.next_key
        → Knows rest h
    Knows-rest j [] h e t = t
    Knows-rest j (x ∷ rest) h e (is_more, next) = (
      is_more,
      next,
      drop-All (λ y. y.0 < 2 ^ 64) 100 (entries j) x rest
          (keep-All (λ y. leb j y.0 && leb y.0 (end_key p)) (λ y. y.0 < 2 ^ 64) store fits) e,
      within-drop 100 j (end_key p) store x rest sorted e,
    )

    -- After a page of the range from `j` on.
    IsReading-page :
        (j : ℕ) (seen : List UniversalRecord) (s : Session)
        → s.pending ≡ []
        → s.hook.loading_more ≡ false
        → s.hook.active_partition ≡ some p
        → s.registries ≡ r
        → s.hook.has_more ≡ (page j).has_more
        → s.hook.next_key ≡ (page j).next_key_text
        → s.hook.records ≡ seen ++ parse_page js r (page j)
        → seen ++ shown js r (entries j) ≡ shown js r (entries_of store p)
        → IsReading (drop 100 (entries j)) s
    IsReading-page j seen s quiet still opened same is_more next records kept =
        let left = drop 100 (entries j) in
        let (raw, tells) = page_of-rest 100 (entries j) left refl in
        let parsed : parse_page js r (page j) ≡ shown js r (take 100 (entries j)) =
          unfold parse_page in rw raw refl in
        record {
          quiet = quiet;
          still = still;
          opened = opened;
          same = same;
          known = Knows-rest j left s.hook refl (rw (is_more, next) tells);
          kept =
              ap (λ t. t ++ shown js r left) (records ∙ ap (λ t. seen ++ t) parsed)
              ∙ append_assoc seen (shown js r (take 100 (entries j))) (shown js r left)
              ∙ ap (λ t. seen ++ t)
                  (sym (shown-append js r (take 100 (entries j)) left)
                    ∙ ap (shown js r) (append-take-drop 100 (entries j)))
              ∙ kept;
        }

    end_key_lt : end_key p < 2 ^ 64
    unfolding end_key
    end_key_lt = omega (arith, small)

    start_key_lt : start_key p < 2 ^ 64
    unfolding start_key
    start_key_lt = omega (arith, small)

    IsReading-read :
        (e : Entry) (es : List Entry) (s : Session)
        → IsReading (e ∷ es) s
        → IsReading (drop 100 (e ∷ es)) (read js (get_records store (more_url s.hook)) s)
    unfolding scan_records_bounded bounded
    IsReading-read e es s h =
        let (is_more, next, fit, same_left) = h.known in
        let asked : more_url s.hook ≡ more_text e.0 (end_key p) =
          unfold more_url in rw (next, h.opened) refl in
        let got : get_records store (more_url s.hook) ≡ page e.0 =
          ap (get_records store) asked ∙ get_records-more e.0 (end_key p) fit end_key_lt store in
        let after =
          IsReading-page e.0 s.hook.records (read js (get_records store (more_url s.hook)) s) refl
            refl h.opened h.same (ap (λ x. x.has_more) got) (ap (λ x. x.next_key_text) got)
            (rw (h.same, got) refl) (rw same_left h.kept) in
        rw same_left at after

    IsReading-click :
        (rest : List Entry) (s : Session)
        → IsReading rest s
        → IsReading (drop 100 rest) (run js (click_more ∷ arrive 0 0 (serve store) ∷ []) s)
    unfolding run
    IsReading-click [] s h =
        let idle : load_more s ≡ s = unfold load_more in rw h.known refl in
        let gone : take_out s.pending 0 ≡ none = rw h.quiet refl in rw (idle, gone) h
    IsReading-click (e ∷ es) s h =
        rw
          (load_more-IsIdle js s
            (record { none_left = h.quiet; is_more = h.known.0; at_rest = h.still }))
          (IsReading-read e es s h)

    IsReading-clicks :
        (n : ℕ) (rest : List Entry) (s : Session)
        → length rest ≤ 100 * n
        → IsReading rest s
        → IsReading [] (run js (clicks store n) s)
    unfolding run
    IsReading-clicks zero [] s le h = h
    IsReading-clicks zero (e ∷ es) s le h = absurd (omega arith)
    IsReading-clicks (suc n) rest s le h =
        IsReading-clicks n (drop 100 rest) (run js (click_more ∷ arrive 0 0 (serve store) ∷ []) s)
          (omega (arith, length-drop 100 rest)) (IsReading-click rest s h)

    opens :
        (s : Session)
        → s.pending ≡ []
        → s.hook.loading_more ≡ false
        → s.registries ≡ r
        → IsReading
            (drop 100 (entries (start_key p)))
            (run js (open_partition p ∷ arrive 0 0 (serve store) ∷ []) s)
    unfolding run load_partition scan_records_bounded bounded
    opens s quiet still same =
        let asked : partition_url p ≡ partition_text (start_key p) (end_key p) =
          unfold partition_url in refl in
        let got : get_records store (partition_url p) ≡ page (start_key p) =
          ap (get_records store) asked
          ∙ get_records-partition (start_key p) (end_key p) start_key_lt end_key_lt store in
        rw quiet (
          IsReading-page (start_key p) [] _ refl still refl same (ap (λ x. x.has_more) got)
            (ap (λ x. x.next_key_text) got) (rw (same, got) refl) refl)

module _ ⦃c : CaseMap⦄ (js : Platform) where
  -- A server whose entries have ascending keys of 64 bits, each once, and a partition below 256:
  -- when the partition is opened, where nothing is under way, and `load more` is then clicked often
  -- enough for pages of 100, with each call answered before the next, the hook shows every record
  -- that the server has in the partition, in the order of the keys and once each, says that there
  -- are no more, and waits for nothing.
  pub run-reading :
      (store : List Entry) (p n : ℕ) (s : Session)
      → p < 256
      → IsStore store
      → All (λ e. e.0 < 2 ^ 64) store
      → length (entries_of store p) ≤ 100 * (n + 1)
      → s.pending ≡ []
      → s.hook.loading_more ≡ false
      → ((run js (reading store p n) s).hook.records ≡ shown js s.registries (entries_of store p))
        × ((run js (reading store p n) s).hook.has_more ≡ false)
        × ((run js (reading store p n) s).pending ≡ [])
  unfolding run
  run-reading store p n s small sorted fits enough quiet still =
      let begun = run js (open_partition p ∷ arrive 0 0 (serve store) ∷ []) s in
      let read_all =
        IsReading-clicks js store p s.registries small sorted fits n (drop 100 (entries_of store p))
          begun (omega (arith, length-drop 100 (entries_of store p)))
          (opens js store p s.registries small sorted fits s quiet still refl) in
      (sym (append-nil _) ∙ read_all.kept, read_all.known, read_all.quiet)
