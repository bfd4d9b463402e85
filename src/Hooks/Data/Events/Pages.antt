-- ===== src/Hooks/Data/Events/Pages.antt =====
-- useStudioData.ts: the pages of loadMore, and answers that come late.
use beast_db.Prelude.{ℕ, ◌≡◌, refl, true, false, some, [], ◌∷◌, ◌++◌}
use beast_db.Js.Text.{units}
use beast_db.Js.Case.{CaseMap}
use beast_db.Js.Platform.{Platform}
use beast_db.Js.BigInt.{to_decimal}
use beast_db.Hooks.Api.{done, lost, response}
use beast_db.Hooks.Ranges.{end_key}
use beast_db.Hooks.Data.{
  Page, Call, partition, listing, counts, poll, more, write, Session, more_url, get_of, load_more,
}
use beast_db.Hooks.Data.Events.{
  ReplyOf, open_partition, reload, click_more, arrive, parse_page, run,
}

-- The answer to a call for records; whatever else waits is lost.
abbrev pub with_page : Page → (c : Call) → ReplyOf c
with_page page (partition url) = response 200 (done []) (done page)
with_page page listing = record {
  page = response 200 (done []) (done page);
  me = lost;
  partitions = lost;
}
with_page page counts = lost
with_page page poll = lost
with_page page (more url) = response 200 (done []) (done page)
with_page page (write url) = lost

-- Nothing is under way, and there is more to read.
pub record IsIdle (s : Session) : Type 0 where
  pub none_left : s.pending ≡ []
  pub is_more : s.hook.has_more ≡ true
  pub at_rest : s.hook.loading_more ≡ false

module _ ⦃c : CaseMap⦄ (js : Platform) where
  abbrev pub read : Page → Session → Session
  read page s = record s {
    hook = record (s.hook) {
      records = s.hook.records ++ parse_page js s.registries page;
      has_more = page.has_more;
      next_key = page.next_key_text;
      loading_more = false;
    };
    pending = [];
    sent = s.sent ++ get_of (more_url s.hook) ∷ [];
  }

  pub load_more-IsIdle :
      (s : Session)
      → IsIdle s
      → load_more s ≡ record s {
        hook = record (s.hook) { loading_more = true };
        pending = more (more_url s.hook) ∷ [];
        sent = s.sent ++ get_of (more_url s.hook) ∷ [];
      }
  unfolding load_more
  load_more-IsIdle s h = rw (h.none_left, h.is_more, h.at_rest) refl

  -- A partition that is opened before the answer for another one is there: if the older answer
  -- comes last, its records are shown under the partition that was opened last.
  pub records-late :
      (p q : ℕ) (older newer : Page) (s : Session)
      → s.pending ≡ []
      → ((run js
            (open_partition p
              ∷ open_partition q
              ∷ arrive 1 0 (with_page newer)
              ∷ arrive 0 0 (with_page older)
              ∷ [])
            s).hook.records
          ≡ parse_page js s.registries older)
        × ((run js
              (open_partition p
                ∷ open_partition q
                ∷ arrive 1 0 (with_page newer)
                ∷ arrive 0 0 (with_page older)
                ∷ [])
              s).hook.active_partition
            ≡ some q)
  unfolding run
  records-late p q older newer s h = rw h (refl, refl)

  -- A refresh lists all partitions but leaves a partition open: what is asked for next is cut at
  -- the end of that partition. (Nothing is under way before, and the list has more to come.)
  pub pending-refresh :
      (p : ℕ) (page : Page) (s : Session)
      → s.pending ≡ []
      → s.hook.loading_more ≡ false
      → page.has_more ≡ true
      → s.hook.active_partition ≡ some p
      → (run js
          (reload ∷ arrive 0 0 (with_page page) ∷ arrive 0 0 (with_page page) ∷ click_more ∷ [])
          s).pending
        ≡ more (
            units "/api/records?start="
            ++ page.next_key_text
            ++ units "&limit=100"
            ++ (units "&end=" ++ to_decimal (end_key p)))
          ∷ []
  unfolding run more_url
  pending-refresh p page s h k m a = rw (h, k, m, a) refl
