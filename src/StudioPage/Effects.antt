-- ===== src/StudioPage/Effects.antt =====
-- page.tsx: the effects that follow a change of the notice or of the selection.
use mathlib.Core.Option
use beast_db.Prelude.{
  ℕ, ◌≡◌, refl, sym, ◌∙◌, ap, true, Option, none, some, List, [], ◌∷◌, ==_refl, ==_iff, Bool-cases,
  inl, inr, ◌⊎◌,
}
use beast_db.StudioPage.{
  Notice, Page, stop, shown_serial, is_same, clear, set_timer, notice_effect, address_effect,
  after_render,
}

abbrev pub serial_of : Option Notice → Option ℕ
serial_of none = none
serial_of (some n) = some n.serial

abbrev pub list_of : Option ℕ → List ℕ
list_of none = []
list_of (some t) = t ∷ []

-- The timer of the notice that is shown runs, and no other; the address has the key of the record
-- that is selected.
pub record IsTidy (p : Page) : Type 0 where
  pub timed : p.timers ≡ list_of (serial_of p.notice)
  pub cleaned : p.cleanup ≡ serial_of p.notice
  pub addressed : p.key_param ≡ Option.map (λ x. x.key_str) p.selected

-- What a setter leaves for the effects: the timers of the last run, unless the one timer has ended
-- and its notice is gone.
abbrev pub IsLeft : Option ℕ → Option ℕ → List ℕ → Type 0
IsLeft now cleanup ts = (ts ≡ list_of cleanup) ⊎ ((ts ≡ []) × (now ≡ none))

shown_serial-eq : (p : Page) → shown_serial p ≡ serial_of p.notice
unfolding shown_serial
shown_serial-eq p = elim p.notice as (λ n. Option.map (λ x. x.serial) n ≡ serial_of n) [
  | none ↦ refl
  | some x ↦ refl
]

is_same-true : (now cleanup : Option ℕ) → is_same now cleanup ≡ true → cleanup ≡ now
unfolding is_same
is_same-true none none e = refl
is_same-true none (some b) e = cc
is_same-true (some a) none e = cc
is_same-true (some a) (some b) e = ap some (sym ((==_iff a b).0 e))

timers-same :
    (now cleanup : Option ℕ) (ts : List ℕ)
    → cleanup ≡ now
    → IsLeft now cleanup ts
    → ts ≡ list_of now
timers-same now cleanup ts e (inl h) = h ∙ ap list_of e
timers-same now cleanup ts e (inr (h, k)) = h ∙ ap list_of (sym k)

clear-left : (now cleanup : Option ℕ) (ts : List ℕ) → IsLeft now cleanup ts → clear cleanup ts ≡ []
unfolding clear stop
clear-left now none ts (inl h) = h
clear-left now none ts (inr (h, k)) = h
clear-left now (some t) ts (inl h) = rw h (rw (==_refl t) refl)
clear-left now (some t) ts (inr (h, k)) = rw h refl

set_timer-nil : (now : Option ℕ) → set_timer now [] ≡ list_of now
unfolding set_timer
set_timer-nil none = refl
set_timer-nil (some t) = refl

pub IsTidy-after_render :
    (p : Page) → IsLeft (serial_of p.notice) p.cleanup p.timers → IsTidy (after_render p)
unfolding after_render notice_effect address_effect
IsTidy-after_render p h = elim (Bool-cases (is_same (serial_of p.notice) p.cleanup)) [
  | inl e ↦
      let same = is_same-true (serial_of p.notice) p.cleanup e in
      rw (shown_serial-eq p, e)
        record {
          timed = timers-same (serial_of p.notice) p.cleanup p.timers same h;
          cleaned = same;
          addressed = refl;
        }
  | inr e ↦
      rw (shown_serial-eq p, e, clear-left (serial_of p.notice) p.cleanup p.timers h)
        record { timed = set_timer-nil (serial_of p.notice); cleaned = refl; addressed = refl }
]

pub notice-after_render : (p : Page) → (after_render p).notice ≡ p.notice
unfolding after_render notice_effect address_effect
notice-after_render p = elim (Bool-cases (is_same (shown_serial p) p.cleanup)) [
  | inl e ↦ rw e refl
  | inr e ↦ rw e refl
]

pub next-after_render : (p : Page) → (after_render p).next_notice ≡ p.next_notice
unfolding after_render notice_effect address_effect
next-after_render p = elim (Bool-cases (is_same (shown_serial p) p.cleanup)) [
  | inl e ↦ rw e refl
  | inr e ↦ rw e refl
]
