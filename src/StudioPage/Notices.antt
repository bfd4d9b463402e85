-- ===== src/StudioPage/Notices.antt =====
-- page.tsx: the notice and its timer, and the key in the address, over a session.
use beast_db.Prelude.{
  ℕ, ◌+◌, ◌≤◌, ◌<◌, ◌≡◌, refl, sym, ◌∙◌, ap, Bool, true, false, Option, none, some, List, [], ◌∷◌,
  is_some, take_out, any, ◌==◌, Bool-cases, inl, inr, arith, All,
}
use beast_db.Js.Text.{Text}
use beast_db.Hooks.Api.{Result, failed, done}
use beast_db.StudioPage.{
  delete_record, delete_user, Notice, Page, Call, looking, removing, removing_user, updating,
  rereading, Session, show_notice, fire, stop, select, remove, remove_user_cascade, wait, ReplyOf,
  finish, Event, choose, ask_delete, ask_delete_user, confirm_delete, confirm_delete_user, dismiss,
  dismiss_notice, show_view, open_new, open_tokens, open_analyzer, edit, commit, tell, timer_ends,
  arrive, arrival, after_render, on_page, handle, run,
}
use beast_db.StudioPage.Effects.{
  list_of, IsTidy, IsTidy-after_render, notice-after_render, next-after_render,
}

-- The setters keep the notice, or set a new one.
data Change (p q : Page) : Type 0 where
  quiet :
      q.notice ≡ p.notice
      → q.cleanup ≡ p.cleanup
      → q.timers ≡ p.timers
      → q.next_notice ≡ p.next_notice
      → Change p q
  told :
      (n : Notice)
      → n.serial ≡ p.next_notice
      → q.notice ≡ some n
      → q.cleanup ≡ p.cleanup
      → q.timers ≡ p.timers
      → q.next_notice ≡ p.next_notice + 1
      → Change p q

data Moved (p r : Page) : Type 0 where
  still : r ≡ p → Moved p r
  rendered : (q : Page) → Change p q → r ≡ after_render q → Moved p r

Change-finish : (c : Call) (r : Result (ReplyOf c)) (p : Page) → Change p (finish c r p)
unfolding finish show_notice select
Change-finish (looking key) (failed m) p = quiet refl refl refl refl
Change-finish (looking key) (done rec) p = quiet refl refl refl refl
Change-finish (removing key) (failed m) p = told _ refl refl refl refl refl
Change-finish (removing key) (done r) p = told _ refl refl refl refl refl
Change-finish (removing_user u) (failed m) p = told _ refl refl refl refl refl
Change-finish (removing_user u) (done n) p = told _ refl refl refl refl refl
Change-finish (updating k v) (failed m) p = told _ refl refl refl refl refl
Change-finish (updating k v) (done r) p = quiet refl refl refl refl
Change-finish (rereading k) (failed m) p = told _ refl refl refl refl refl
Change-finish (rereading k) (done rec) p = told _ refl refl refl refl refl

page-delete_record : (o : Option Text) (s : Session) → (delete_record o s).page ≡ s.page
unfolding delete_record wait
page-delete_record none s = refl
page-delete_record (some []) s = refl
page-delete_record (some (u ∷ k)) s = refl

page-delete_user : (o : Option ℕ) (s : Session) → (delete_user o s).page ≡ s.page
unfolding delete_user wait
page-delete_user none s = refl
page-delete_user (some u) s = refl

Moved-arrival :
    (answer : (c : Call) → Result (ReplyOf c)) (o : Option (Call × List Call)) (s : Session)
    → Moved s.page (arrival answer o s).page
unfolding arrival
Moved-arrival answer none s = still refl
Moved-arrival answer (some (c, cs)) s = rendered _ (Change-finish c (answer c) s.page) refl

-- Neither the end of a timer nor a click that takes the notice away.
abbrev IsPlain : Event → Type 0
IsPlain dismiss = ⊥
IsPlain (timer_ends id) = ⊥
IsPlain _ = Unit

Moved-handle : (e : Event) (s : Session) → IsPlain e → Moved s.page (handle e s).page
unfolding handle on_page remove remove_user_cascade wait select show_notice
Moved-handle (choose r) s w = rendered (select r s.page) (quiet refl refl refl refl) refl
Moved-handle (ask_delete key) s w =
    rendered (record (s.page) { delete_key = key }) (quiet refl refl refl refl) refl
Moved-handle (ask_delete_user u) s w =
    rendered (record (s.page) { delete_user_hash = u }) (quiet refl refl refl refl) refl
Moved-handle confirm_delete s w = still (page-delete_record s.page.delete_key s)
Moved-handle confirm_delete_user s w = still (page-delete_user s.page.delete_user_hash s)
Moved-handle (show_view v) s w =
    rendered (record (s.page) { view = v }) (quiet refl refl refl refl) refl
Moved-handle (open_new b) s w =
    rendered (record (s.page) { new_open = b }) (quiet refl refl refl refl) refl
Moved-handle (open_tokens b) s w =
    rendered (record (s.page) { tokens_open = b }) (quiet refl refl refl refl) refl
Moved-handle (open_analyzer b) s w =
    rendered (record (s.page) { analyzer_open = b }) (quiet refl refl refl refl) refl
Moved-handle (edit r) s w =
    rendered (record (s.page) { editing_record = r }) (quiet refl refl refl refl) refl
Moved-handle (commit k v) s w = still refl
Moved-handle (tell m b) s w =
    rendered (show_notice m b s.page) (told _ refl refl refl refl refl) refl
Moved-handle dismiss s w = absurd w
Moved-handle (timer_ends id) s w = absurd w
Moved-handle (arrive i answer) s w = Moved-arrival answer (take_out s.pending i) s

timers-left : (p : Page) → IsTidy p → p.timers ≡ list_of p.cleanup
timers-left p h = h.timed ∙ ap list_of (sym h.cleaned)

IsTidy-Change : (p q : Page) → Change p q → IsTidy p → IsTidy (after_render q)
IsTidy-Change p q (quiet a b c d) h =
    IsTidy-after_render q (inl (c ∙ timers-left p h ∙ ap list_of (sym b)))
IsTidy-Change p q (told n i a b c d) h =
    IsTidy-after_render q (inl (c ∙ timers-left p h ∙ ap list_of (sym b)))

IsTidy-Moved : (p r : Page) → Moved p r → IsTidy p → IsTidy r
IsTidy-Moved p r (still e) h = rw e h
IsTidy-Moved p r (rendered q c e) h = rw e (IsTidy-Change p q c h)

IsTidy-dismiss : (p : Page) → IsTidy p → IsTidy (after_render (dismiss_notice p))
unfolding dismiss_notice
IsTidy-dismiss p h = IsTidy-after_render _ (inl (timers-left p h))

-- A timer that runs is the one of the cleanup, so that none is left when it has ended.
fired_none :
    (id : ℕ) (c : Option ℕ) → any (λ u. u == id) (list_of c) ≡ true → stop id (list_of c) ≡ []
unfolding stop
fired_none id none e = cc
fired_none id (some t) e = elim (Bool-cases (t == id)) [
  | inl f ↦ rw f refl
  | inr f ↦ let wrong = rw f at e in cc
]

IsTidy-fire : (id : ℕ) (p : Page) → IsTidy p → IsTidy (after_render (fire id p))
unfolding fire
IsTidy-fire id p h = elim (Bool-cases (any (λ u. u == id) p.timers)) [
  | inl e ↦ rw e (
      IsTidy-after_render _
        (inr (rw (timers-left p h) (fired_none id p.cleanup (rw (timers-left p h) at e)), refl)))
  | inr e ↦ rw e (IsTidy-after_render p (inl (timers-left p h)))
]

IsTidy-handle : (e : Event) (s : Session) → IsTidy s.page → IsTidy (handle e s).page
unfolding handle on_page
IsTidy-handle dismiss s h = IsTidy-dismiss s.page h
IsTidy-handle (timer_ends id) s h = IsTidy-fire id s.page h
IsTidy-handle e s h = IsTidy-Moved s.page (handle e s).page (Moved-handle e s tt) h

-- Where the timer of the notice that is shown runs and no other, and the address has the key of the
-- selected record, both hold after any events and answers, in any order.
pub run-IsTidy : (es : List Event) (s : Session) → IsTidy s.page → IsTidy (run es s).page
unfolding run
run-IsTidy [] s h = h
run-IsTidy (e ∷ es) s h = run-IsTidy es (handle e s) (IsTidy-handle e s h)

-- What may happen while the notice with number n, or a later one, is shown: no click takes it away,
-- and only timers of earlier notices end.
abbrev pub Spares : ℕ → Event → Type 0
Spares n dismiss = ⊥
Spares n (timer_ends id) = id < n
Spares n _ = Unit

record Lasts (n : ℕ) (p : Page) : Type 0 where
  shown : Notice
  is_shown : p.notice ≡ some shown
  late : n ≤ shown.serial
  passed : n < p.next_notice
  tidy : IsTidy p

Lasts-Moved : (n : ℕ) (p r : Page) → Moved p r → Lasts n p → Lasts n r
Lasts-Moved n p r (still e) h = rw e h
Lasts-Moved n p r (rendered q (quiet a b c d) e) h = rw e record {
  shown = h.shown;
  is_shown = notice-after_render q ∙ a ∙ h.is_shown;
  late = h.late;
  passed = rw (next-after_render q, d) h.passed;
  tidy = IsTidy-Change p q (quiet a b c d) h.tidy;
}
Lasts-Moved n p r (rendered q (told x i a b c d) e) h = rw e record {
  shown = x;
  is_shown = notice-after_render q ∙ a;
  late = omega (arith, i, h.passed);
  passed = rw (next-after_render q, d) (omega (arith, h.passed));
  tidy = IsTidy-Change p q (told x i a b c d) h.tidy;
}

fire-older : (n id : ℕ) (p : Page) → id < n → Lasts n p → fire id p ≡ p
unfolding fire
fire-older n id p w h =
    let other : (h.shown.serial == id) ≡ false = ground (arith, w, h.late) in
    rw (h.tidy.timed, h.is_shown, other) refl

Lasts-handle :
    (n : ℕ) (e : Event) (s : Session) → Spares n e → Lasts n s.page → Lasts n (handle e s).page
unfolding handle on_page
Lasts-handle n dismiss s w h = absurd w
Lasts-handle n (timer_ends id) s w h = rw (fire-older n id s.page w h) (
    Lasts-Moved n s.page (after_render s.page) (rendered s.page (quiet refl refl refl refl) refl) h)
Lasts-handle n e s w h = Lasts-Moved n s.page (handle e s).page (Moved-handle e s tt) h

Lasts-run :
    (n : ℕ) (es : List Event) (s : Session)
    → All (Spares n) es
    → Lasts n s.page
    → Lasts n (run es s).page
unfolding run
Lasts-run n [] s w h = h
Lasts-run n (e ∷ es) s (w, ws) h = Lasts-run n es (handle e s) ws (Lasts-handle n e s w h)

Lasts-tell :
    (m : Text) (b : Bool) (s : Session)
    → IsTidy s.page
    → Lasts s.page.next_notice (handle (tell m b) s).page
unfolding handle on_page show_notice
Lasts-tell m b s h =
    let q = show_notice m b s.page in
    record {
      shown = record { serial = s.page.next_notice; message = m; error = b };
      is_shown = notice-after_render q;
      late = omega arith;
      passed = rw (next-after_render q) (omega arith);
      tidy = IsTidy-handle (tell m b) s h;
    }

-- From a page on which the timer of the notice that is shown runs and no other, after any events, a
-- notice is told. As long as no click takes a notice away and no timer ends but those set for notices
-- before it, a notice is shown: the timer of an earlier notice never hides a later one.
pub notice_lasts :
    (es later : List Event) (s : Session) (m : Text) (b : Bool)
    → IsTidy s.page
    → All (Spares (run es s).page.next_notice) later
    → is_some (run later (handle (tell m b) (run es s))).page.notice ≡ true
notice_lasts es later s m b h w =
    let n = (run es s).page.next_notice in
    let told_one = handle (tell m b) (run es s) in
    let lasts = Lasts-run n later told_one w (Lasts-tell m b (run es s) (run-IsTidy es s h)) in
    rw (lasts.is_shown) refl
