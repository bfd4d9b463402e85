-- ===== src/Dashboard/Events/Timers.antt =====
-- dashboard.js: the timers of the toasts (showToast).
use beast_db.Prelude.{
  ℕ, ◌+◌, ◌<◌, ◌≤◌, ◌≡◌, ◌≢◌, refl, ◌∙◌, append_assoc, Bool, true, not, List, [], ◌∷◌, ◌++◌, arith,
  ◌==◌, keep, All, All-append, ==_refl, Bool-cases, inl, inr,
}
use beast_db.Js.Text.{Text}
use beast_db.Js.Platform.{Platform}
use beast_db.Dashboard.{Kind, Toast, Page, Session, show_toast, expire}
use beast_db.Dashboard.Events.{Event, timer, run}
use beast_db.Dashboard.Events.Tellings.{Telling, silent, told, Allowed, run-Keeps}

-- Every toast has a number below the next one.
abbrev pub IsFresh : Page → Type 0
IsFresh p = All (λ t. t.id < p.next_toast) p.toasts

All-later : (n m : ℕ) (ts : List Toast) → n ≤ m → All (λ t. t.id < n) ts → All (λ t. t.id < m) ts
All-later n m [] h k = tt
All-later n m (t ∷ ts) h (p, k) = (omega arith, All-later n m ts h k)

IsFresh-Telling : (p q : Page) → Telling p q → IsFresh p → IsFresh q
IsFresh-Telling p q (silent same next) h = rw (same, next) h
IsFresh-Telling p q (told t id more next) h =
    rw (more, next)
      (All-append (λ t. t.id < p.next_toast + 1) p.toasts (t ∷ [])
        (All-later p.next_toast (p.next_toast + 1) p.toasts (omega arith) h) (omega arith, tt))

All-keep {ℓ} :
    {A : Type ℓ} (P : A → Type 0) (f : A → Bool) (xs : List A) → All P xs → All P (keep f xs)
All-keep P f [] h = tt
All-keep P f (x ∷ xs) (p, h) = elim (Bool-cases (f x)) [
  | inl e ↦ rw e (p, All-keep P f xs h)
  | inr e ↦ rw e (All-keep P f xs h)
]

any_timers : (es : List Event) → All (Allowed (λ id. Unit)) es
any_timers [] = tt
any_timers (timer id ∷ es) = (tt, any_timers es)
any_timers (_ ∷ es) = (tt, any_timers es)

expire-IsFresh : (id : ℕ) (p : Page) → IsFresh p → IsFresh (expire id p)
unfolding expire
expire-IsFresh id p h = All-keep (λ t. t.id < p.next_toast) (λ t. not (t.id == id)) p.toasts h

run-IsFresh :
    (js : Platform) (es : List Event) (s : Session) → IsFresh s.page → IsFresh (run js es s).page
run-IsFresh js es s h =
    run-Keeps js IsFresh (λ id. Unit) IsFresh-Telling (λ id p w k. expire-IsFresh id p k) es s
      (any_timers es) h

keep_apart :
    (n : ℕ) (ts : List Toast) → All (λ t. t.id ≢ n) ts → keep (λ t. not (t.id == n)) ts ≡ ts
keep_apart n [] h = refl
keep_apart n (t ∷ ts) (p, h) = ground (arith, keep_apart n ts)

keep-append {ℓ} :
    {A : Type ℓ} (f : A → Bool) (xs ys : List A) → keep f (xs ++ ys) ≡ keep f xs ++ keep f ys
keep-append f [] ys = refl
keep-append f (x ∷ xs) ys = ground (arith, keep-append f xs ys)

All-map {ℓ} :
    {A : Type ℓ} (P Q : A → Type 0) (xs : List A) → ((x : A) → P x → Q x) → All P xs → All Q xs
All-map P Q [] f h = tt
All-map P Q (x ∷ xs) f (p, h) = (f x p, All-map P Q xs f h)

module _ (t : Toast) where
  -- The toast is on the page, among others that have other numbers.
  record IsAmong (p : Page) : Type 0 where
    older : List Toast
    newer : List Toast
    shown : p.toasts ≡ older ++ t ∷ newer
    apart_before : All (λ x. x.id ≢ t.id) older
    apart_after : All (λ x. x.id ≢ t.id) newer
    passed : t.id < p.next_toast

  IsAmong-Telling : (p q : Page) → Telling p q → IsAmong p → IsAmong q
  IsAmong-Telling p q (silent same next) h = record {
    older = h.older;
    newer = h.newer;
    shown = same ∙ h.shown;
    apart_before = h.apart_before;
    apart_after = h.apart_after;
    passed = rw next h.passed;
  }
  IsAmong-Telling p q (told x id more next) h = record {
    older = h.older;
    newer = h.newer ++ x ∷ [];
    shown = rw (more, h.shown) (append_assoc h.older (t ∷ h.newer) (x ∷ []));
    apart_before = h.apart_before;
    apart_after =
        All-append (λ y. y.id ≢ t.id) h.newer (x ∷ []) h.apart_after
          ((λ e. omega (arith, h.passed, id, e)), tt);
    passed = omega (arith, h.passed, next);
  }

  IsAmong-expire : (id : ℕ) (p : Page) → id ≢ t.id → IsAmong p → IsAmong (expire id p)
  unfolding expire
  IsAmong-expire id p w h =
      let f : Toast → Bool = λ x. not (x.id == id) in
      let stays : f t ≡ true = ground (arith, w) in
      record {
        older = keep f h.older;
        newer = keep f h.newer;
        shown = rw (h.shown, keep-append) (rw stays refl);
        apart_before = All-keep (λ x. x.id ≢ t.id) f h.older h.apart_before;
        apart_after = All-keep (λ x. x.id ≢ t.id) f h.newer h.apart_after;
        passed = h.passed;
      }

-- The toast is on the page, and its timer leaves exactly the others, in their order.
pub record IsTaken (t : Toast) (p : Page) : Type 0 where
  pub older : List Toast
  pub newer : List Toast
  pub shown : p.toasts ≡ older ++ t ∷ newer
  pub left_over : (expire t.id p).toasts ≡ older ++ newer

IsTaken-IsAmong : (t : Toast) (p : Page) → IsAmong t p → IsTaken t p
unfolding expire
IsTaken-IsAmong t p h = record {
  older = h.older;
  newer = h.newer;
  shown = h.shown;
  left_over =
      rw (h.shown, keep-append)
        (rw
          (
            ==_refl t.id,
            keep_apart t.id h.older h.apart_before,
            keep_apart t.id h.newer h.apart_after,
          )
          refl);
}

abbrev pub telling : Text → Kind → Session → Session
telling m k s = record s { page = show_toast m k s.page }

abbrev pub toast_of : Text → Kind → Session → Toast
toast_of m k s = record { id = s.page.next_toast; message = m; kind = k }

IsAmong-telling :
    (m : Text) (k : Kind) (s : Session)
    → IsFresh s.page
    → IsAmong (toast_of m k s) (telling m k s).page
unfolding show_toast
IsAmong-telling m k s h = record {
  older = s.page.toasts;
  newer = [];
  shown = refl;
  apart_before =
      All-map (λ x. x.id < s.page.next_toast) (λ x. x.id ≢ s.page.next_toast) s.page.toasts
        (λ x a e. omega (arith, a, e)) h;
  apart_after = tt;
  passed = omega arith;
}

-- From a page with no toasts, after any events, a toast is shown; then come any events but the end of
-- its own timer, so that other toasts are shown and taken away. The toast is still on the page, and
-- its timer takes away that toast and no other, older or newer.
pub timer-show_toast :
    (js : Platform) (es later : List Event) (s : Session) (m : Text) (k : Kind)
    → s.page.toasts ≡ []
    → All (Allowed (λ id. id ≢ (run js es s).page.next_toast)) later
    → IsTaken (toast_of m k (run js es s)) (run js later (telling m k (run js es s))).page
timer-show_toast js es later s m k h w =
    let q = run js es s in
    let t = toast_of m k q in
    IsTaken-IsAmong t _ (
      run-Keeps js (IsAmong t) (λ id. id ≢ t.id) (IsAmong-Telling t) (IsAmong-expire t) later
        (telling m k q) w (IsAmong-telling m k q (run-IsFresh js es s (rw h tt))))
