-- ===== src/Hooks/Data/Events/Loading.antt =====
-- useStudioData.ts: loading and loadingMore over a session.
use beast_db.Prelude.{
  ℕ, ◌≤◌, ◌≡◌, refl, ◌∙◌, All, true, false, Option, none, some, List, [], ◌∷◌, arith, count,
  take_out, count-take_out, Option-cases, inl, inr,
}
use beast_db.Js.Text.{Text, units}
use beast_db.Js.Case.{CaseMap}
use beast_db.Js.Platform.{Platform}
use beast_db.Types.{SessionUser}
use beast_db.Hooks.Api.{Result, failed, done, api}
use beast_db.Hooks.Data.{
  Page, Call, partition, listing, counts, poll, more, write, Session, refresh, post_key,
  remove_user,
}
use beast_db.Hooks.Data.Events.{
  ReplyOf, Event, open_partition, reload, tick, click_more, post, delete, delete_user, arrive,
  got_stats, got_partition_page, got_page, got_listing, got_more, got_partitions, Listing, finish,
  arrival, handle, run, opened,
}
use beast_db.Hooks.Data.Events.Escapes.{AnswersHaveContent, escaped-run}
use beast_db.Hooks.Data.Events.Tracks.{
  is_more, is_load, TracksIn, Owes, Tracks-send, Owes-aside, Owes-got_stats, Tracks-more,
  Tracks-end, Tracks-load_partition, Tracks-refresh, Tracks-fetch_stats, Tracks-load_more,
  Tracks-remove, Tracks-counts, Tracks-got_write,
}

module _ ⦃k : CaseMap⦄ (js : Platform) where
  Tracks-got_partition_page :
      (url : Text) (now : ℕ) (r : Result (Option Page)) (s : Session)
      → Owes (partition url) s
      → TracksIn (got_partition_page js now r s)
  unfolding got_partition_page
  Tracks-got_partition_page url now (failed m) s h = Tracks-end (partition url) s _ refl refl refl h
  Tracks-got_partition_page url now (done none) s h =
      Tracks-end (partition url) s _ refl refl refl h
  Tracks-got_partition_page url now (done (some p)) s h =
      Tracks-end (partition url) s _ refl refl refl h

  Tracks-got_page :
      (now : ℕ) (r : Result (Option Page)) (me : Result (Option SessionUser)) (s : Session)
      → Owes listing s
      → TracksIn (got_page js now r me s)
  unfolding got_page
  Tracks-got_page now (failed m) me s h = Tracks-counts s me _ refl h
  Tracks-got_page now (done none) me s h = record {
    one_more = omega (arith, h.one_more);
    load_waits = λ x y. cc;
  }
  Tracks-got_page now (done (some p)) me s h = Tracks-counts s me _ refl h

  Tracks-got_listing :
      (now : ℕ) (l : Listing) (s : Session) → Owes listing s → TracksIn (got_listing js now l s)
  unfolding got_listing
  Tracks-got_listing now l s h =
      Tracks-got_page now (api (units "/api/records?limit=100") l.page) (api (units "/api/me") l.me)
        (record s {
          registries = got_partitions (api (units "/api/partitions") l.partitions) s.registries;
        })
        (record { one_more = h.one_more; load_waits = h.load_waits })

  Tracks-got_more :
      (url : Text) (r : Result (Option Page)) (s : Session)
      → Owes (more url) s
      → TracksIn (got_more js r s)
  unfolding got_more
  Tracks-got_more url (failed m) s h = Tracks-more url s h _ refl refl
  Tracks-got_more url (done none) s h = record {
    one_more = ground (arith, h.one_more);
    load_waits = λ x y. cc;
  }
  Tracks-got_more url (done (some p)) s h = Tracks-more url s h _ refl refl

  Tracks-finish :
      (now : ℕ) (c : Call) (r : ReplyOf c) (s : Session) → Owes c s → TracksIn (finish js now c r s)
  unfolding finish
  Tracks-finish now (partition url) r s h = Tracks-got_partition_page url now (api url r) s h
  Tracks-finish now listing l s h = Tracks-got_listing now l s h
  Tracks-finish now counts r s h =
      let t = got_stats (api (units "/api/stats?counts=true") r) s in
      Tracks-end counts t _ refl refl refl (Owes-got_stats counts _ s h)
  Tracks-finish now poll r s h =
      let k = Owes-got_stats poll (api (units "/api/stats") r) s h in
      record {
        one_more = omega (arith, k.one_more);
        load_waits = λ x y. omega (arith, k.load_waits x y);
      }
  Tracks-finish now (more url) r s h = Tracks-got_more url (api url r) s h
  Tracks-finish now (write url) r s h = Tracks-got_write url (api url r) s h

  Tracks-arrival :
      (i now : ℕ) (answer : (c : Call) → ReplyOf c) (s : Session)
      → TracksIn s
      → TracksIn (arrival js now answer (take_out s.pending i) s)
  unfolding arrival
  Tracks-arrival i now answer s h = elim (Option-cases (take_out s.pending i)) [
    | inl e ↦ rw (e, arrival) h
    | inr ((c, cs), e) ↦
        rw (e, arrival)
          (Tracks-finish now c (answer c) (record s { pending = cs })
            (record {
              one_more = omega (arith, count-take_out is_more s.pending i c cs e, h.one_more);
              load_waits =
                  λ x y. omega (arith, count-take_out is_load s.pending i c cs e, h.load_waits x y);
            }))
  ]

  Tracks-handle : (e : Event) (s : Session) → TracksIn s → TracksIn (handle js e s)
  unfolding handle
  Tracks-handle (open_partition p) s h = Tracks-load_partition p s h
  Tracks-handle reload s h = Tracks-refresh s h
  Tracks-handle tick s h = Tracks-fetch_stats poll false s (Owes-aside poll s refl h)
  Tracks-handle click_more s h = Tracks-load_more s h
  Tracks-handle (post key value b) s h =
      unfold post_key in Tracks-send _ _ _ (Owes-aside (write _) s refl h)
  Tracks-handle (delete key) s h = Tracks-remove key s h
  Tracks-handle (delete_user u) s h =
      unfold remove_user in Tracks-send _ _ _ (Owes-aside (write _) s refl h)
  Tracks-handle (arrive i now answer) s h = Tracks-arrival i now answer s h

  Tracks-run : (es : List Event) (s : Session) → TracksIn s → TracksIn (run js es s)
  unfolding run
  Tracks-run [] s h = h
  Tracks-run (e ∷ es) s h = Tracks-run es (handle js e s) (Tracks-handle e s h)

  Tracks-opened : TracksIn opened
  unfolding opened refresh
  Tracks-opened = record { one_more = refl; load_waits = λ x y. omega arith }

  escaped-opened : opened.escaped ≡ false
  unfolding opened refresh
  escaped-opened = refl

  -- However the events and the answers are ordered, at most one call of loadMore is under way.
  pub more_once : (es : List Event) → count is_more (run js es opened).pending ≤ 1
  more_once es = ground (arith, (Tracks-run es opened Tracks-opened).one_more)

  -- When every call has been answered, in any order and with errors or without, neither flag is set,
  -- provided that no answer for the statistics, for the list of a refresh or for a page of loadMore
  -- has the status 201 or 204, for which api gives `undefined`.
  pub loading_ends :
      (es : List Event)
      → (run js es opened).pending ≡ []
      → All AnswersHaveContent es
      → ((run js es opened).hook.loading ≡ false) × ((run js es opened).hook.loading_more ≡ false)
  loading_ends es none_left contents =
      let t = Tracks-run es opened Tracks-opened in
      let calm = escaped-run js es opened contents ∙ escaped-opened in
      let waits = rw none_left at t.load_waits in
      let ones = rw none_left at t.one_more in
      (
        ground (arith, λ (x : (run js es opened).hook.loading ≡ true). waits x calm),
        ground (arith, ones),
      )
