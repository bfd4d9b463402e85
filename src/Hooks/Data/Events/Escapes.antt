-- ===== src/Hooks/Data/Events/Escapes.antt =====
-- useStudioData.ts: the errors that get past the hook, where an answer has no content.
use beast_db.Prelude.{
  ℕ, ◌≡◌, ◌≢◌, refl, ◌∙◌, not, ◌&&◌, Option, none, some, List, [], ◌∷◌, All, take_out, Bool-cases,
  Option-cases, inl, inr,
}
use beast_db.Js.Text.{Text, units}
use beast_db.Js.Case.{CaseMap}
use beast_db.Js.Uri.{encode_uri_component}
use beast_db.Js.Platform.{Platform}
use beast_db.Types.{TelemetryStats, SessionUser}
use beast_db.Hooks.Api.{Result, failed, done, api}
use beast_db.Hooks.Data.{
  Page, Call, partition, listing, counts, poll, more, write, Session, load_partition, refresh,
  fetch_stats, load_more, post_key, remove, remove_user,
}
use beast_db.Hooks.Data.Events.{
  ReplyOf, Event, open_partition, reload, tick, click_more, post, delete, delete_user, arrive,
  got_stats, got_partition_page, got_page, got_listing, got_more, got_write, finish, arrival,
  handle, run,
}

-- The answer for the statistics, the list of a refresh or a page of loadMore is not `undefined`,
-- which api gives for the statuses 201 and 204.
abbrev pub HasContent : (c : Call) → ReplyOf c → Type 0
HasContent (partition url) r = Unit
HasContent listing l = api (units "/api/records?limit=100") l.page ≢ done none
HasContent counts r = api (units "/api/stats?counts=true") r ≢ done none
HasContent poll r = api (units "/api/stats") r ≢ done none
HasContent (more url) r = api url r ≢ done none
HasContent (write url) r = Unit

abbrev pub AnswersHaveContent : Event → Type 0
AnswersHaveContent (arrive i now answer) = (c : Call) → HasContent c (answer c)
AnswersHaveContent _ = Unit

escaped-load_more : (s : Session) → (load_more s).escaped ≡ s.escaped
unfolding load_more
escaped-load_more s = elim (Bool-cases (s.hook.has_more && not s.hook.loading_more)) [
  | inl e ↦ rw e refl
  | inr e ↦ rw e refl
]

escaped-remove : (key : Text) (s : Session) → (remove key s).escaped ≡ s.escaped
unfolding remove
escaped-remove key s = elim (Option-cases (encode_uri_component key)) [
  | inl e ↦ rw (e, remove) refl
  | inr (k, e) ↦ rw (e, remove) refl
]

escaped-got_stats :
    (r : Result (Option TelemetryStats)) (s : Session)
    → r ≢ done none
    → (got_stats r s).escaped ≡ s.escaped
unfolding got_stats
escaped-got_stats (failed m) s h = refl
escaped-got_stats (done none) s h = absurd (h refl)
escaped-got_stats (done (some t)) s h = refl

escaped-got_write :
    (r : Result (Option (Unit {0}))) (s : Session) → (got_write r s).escaped ≡ s.escaped
unfolding got_write refresh
escaped-got_write (failed m) s = refl
escaped-got_write (done u) s = refl

module _ ⦃k : CaseMap⦄ (js : Platform) where
  escaped-got_partition_page :
      (now : ℕ) (r : Result (Option Page)) (s : Session)
      → (got_partition_page js now r s).escaped ≡ s.escaped
  unfolding got_partition_page
  escaped-got_partition_page now (failed m) s = refl
  escaped-got_partition_page now (done none) s = refl
  escaped-got_partition_page now (done (some p)) s = refl

  escaped-got_page :
      (now : ℕ) (r : Result (Option Page)) (me : Result (Option SessionUser)) (s : Session)
      → r ≢ done none
      → (got_page js now r me s).escaped ≡ s.escaped
  unfolding got_page fetch_stats
  escaped-got_page now (failed m) me s h = refl
  escaped-got_page now (done none) me s h = absurd (h refl)
  escaped-got_page now (done (some p)) me s h = refl

  escaped-got_more :
      (r : Result (Option Page)) (s : Session)
      → r ≢ done none
      → (got_more js r s).escaped ≡ s.escaped
  unfolding got_more
  escaped-got_more (failed m) s h = refl
  escaped-got_more (done none) s h = absurd (h refl)
  escaped-got_more (done (some p)) s h = refl

  escaped-finish :
      (now : ℕ) (c : Call) (r : ReplyOf c) (s : Session)
      → HasContent c r
      → (finish js now c r s).escaped ≡ s.escaped
  unfolding finish got_listing
  escaped-finish now (partition url) r s h = escaped-got_partition_page now (api url r) s
  escaped-finish now listing l s h =
      escaped-got_page now (api (units "/api/records?limit=100") l.page)
        (api (units "/api/me") l.me) _ h
  escaped-finish now counts r s h = escaped-got_stats (api (units "/api/stats?counts=true") r) s h
  escaped-finish now poll r s h = escaped-got_stats (api (units "/api/stats") r) s h
  escaped-finish now (more url) r s h = escaped-got_more (api url r) s h
  escaped-finish now (write url) r s h = escaped-got_write (api url r) s

  escaped-arrival :
      (now : ℕ) (answer : (c : Call) → ReplyOf c) (o : Option (Call × List Call)) (s : Session)
      → ((c : Call) → HasContent c (answer c))
      → (arrival js now answer o s).escaped ≡ s.escaped
  unfolding arrival
  escaped-arrival now answer none s h = refl
  escaped-arrival now answer (some (c, cs)) s h =
      escaped-finish now c (answer c) (record s { pending = cs }) (h c)

  escaped-handle :
      (e : Event) (s : Session) → AnswersHaveContent e → (handle js e s).escaped ≡ s.escaped
  unfolding handle load_partition refresh fetch_stats post_key remove_user
  escaped-handle (open_partition p) s h = refl
  escaped-handle reload s h = refl
  escaped-handle tick s h = refl
  escaped-handle click_more s h = escaped-load_more s
  escaped-handle (post key value b) s h = refl
  escaped-handle (delete key) s h = escaped-remove key s
  escaped-handle (delete_user u) s h = refl
  escaped-handle (arrive i now answer) s h = escaped-arrival now answer (take_out s.pending i) s h

  -- Where every answer has content, no error gets past the hook.
  pub escaped-run :
      (es : List Event) (s : Session)
      → All AnswersHaveContent es
      → (run js es s).escaped ≡ s.escaped
  unfolding run
  escaped-run [] s h = refl
  escaped-run (e ∷ es) s (h, hs) = escaped-run es (handle js e s) hs ∙ escaped-handle e s h
