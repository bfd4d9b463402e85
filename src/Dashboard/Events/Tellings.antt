-- ===== src/Dashboard/Events/Tellings.antt =====
-- dashboard.js: how its functions change the list of the toasts: showToast once, or not at all.
use beast_db.Prelude.{
  take_out, ℕ, ◌+◌, ◌≡◌, refl, Bool, true, false, none, some, List, [], ◌∷◌, ◌++◌, All,
  if◌then◌else◌, Option-cases, inl, inr,
}
use beast_db.Js.Text.{Text, trim}
use beast_db.Js.Uri.{encode_uri_component}
use beast_db.Js.Platform.{Platform}
use beast_db.Dashboard.{
  Toast, Page, Pending, telemetry, getting, putting, deleting, Outcome, lost, cut, full, Session,
  is_ok, show_toast, expire, finish_telemetry, finish_get, finish_put, finish_delete, after_delete,
}
use beast_db.Dashboard.Events.Toasts.{toasts-finish_telemetry, next_toast-finish_telemetry}
use beast_db.Dashboard.Events.{
  Event, edit_search, edit_key, edit_val, click_get, click_put, click_format, click_copy,
  click_delete, tick, timer, arrive, get_key, get_encoded, delete_key, delete_encoded, put_key,
  format_json_input, copy_inspector, refetch, finish, arrival, handle, run,
}

-- Timers may end only as it is said.
abbrev pub Allowed : (ℕ → Type 0) → Event → Type 0
Allowed Fires (timer id) = Fires id
Allowed Fires _ = Unit

-- A page changes its toasts in no way, or by one that takes the next number.
pub data Telling (p q : Page) : Type 0 where
  silent : q.toasts ≡ p.toasts → q.next_toast ≡ p.next_toast → Telling p q
  told :
      (t : Toast)
      → t.id ≡ p.next_toast
      → q.toasts ≡ p.toasts ++ t ∷ []
      → q.next_toast ≡ p.next_toast + 1
      → Telling p q

Telling-if : (b : Bool) (p x y : Page) → Telling p x → Telling p y → Telling p (if b then x else y)
Telling-if true p x y h k = h
Telling-if false p x y h k = k

Telling-if_pair :
    (b : Bool) (p : Page) (x y : Page × Bool)
    → Telling p x.0
    → Telling p y.0
    → Telling p (if◌then◌else◌ {A = Page × Bool} b x y).0
Telling-if_pair true p x y h k = h
Telling-if_pair false p x y h k = k

module _ (js : Platform) where
  Telling-finish_telemetry : (o : Outcome) (p : Page) → Telling p (finish_telemetry js o p)
  Telling-finish_telemetry o p =
      silent (toasts-finish_telemetry js o p) (next_toast-finish_telemetry js o p)

  Telling-finish_get : (key : Text) (o : Outcome) (p : Page) → Telling p (finish_get js key o p)
  unfolding finish_get
  Telling-finish_get key lost p = told _ refl refl refl
  Telling-finish_get key (cut status) p = told _ refl refl refl
  Telling-finish_get key (full status body) p =
      Telling-if (is_ok status) p _ _ (told _ refl refl refl) (told _ refl refl refl)

  Telling-finish_put :
      (key raw : Text) (o : Outcome) (p : Page) → Telling p (finish_put js key raw o p).0
  unfolding finish_put
  Telling-finish_put key raw lost p = told _ refl refl refl
  Telling-finish_put key raw (cut status) p =
      Telling-if_pair (is_ok status) p _ _ (told _ refl refl refl) (told _ refl refl refl)
  Telling-finish_put key raw (full status body) p =
      Telling-if_pair (is_ok status) p _ _ (told _ refl refl refl) (told _ refl refl refl)

  Telling-after_delete :
      (key : Text) (status : ℕ) (p : Page) → Telling p (after_delete js key status p).0
  unfolding after_delete
  Telling-after_delete key status p =
      Telling-if_pair (is_ok status) p _ _ (told _ refl refl refl) (told _ refl refl refl)

  Telling-finish_delete :
      (key : Text) (o : Outcome) (p : Page) → Telling p (finish_delete js key o p).0
  unfolding finish_delete show_toast
  Telling-finish_delete key lost p = told _ refl refl refl
  Telling-finish_delete key (cut status) p = Telling-after_delete key status p
  Telling-finish_delete key (full status body) p = Telling-after_delete key status p

  Telling-refetch :
      (p : Page) (r : Page × Bool) (s : Session) → Telling p r.0 → Telling p (refetch r s).page
  unfolding refetch
  Telling-refetch p (q, true) s h = h
  Telling-refetch p (q, false) s h = h

  Telling-finish : (c : Pending) (o : Outcome) (s : Session) → Telling s.page (finish js c o s).page
  unfolding finish
  Telling-finish telemetry o s = Telling-finish_telemetry o s.page
  Telling-finish (getting key) o s = Telling-finish_get key o s.page
  Telling-finish (putting key raw) o s =
      Telling-refetch s.page (finish_put js key raw o s.page) s
        (Telling-finish_put key raw o s.page)
  Telling-finish (deleting key) o s =
      Telling-refetch s.page (finish_delete js key o s.page) s (Telling-finish_delete key o s.page)

module _ (js : Platform) where
  Telling-click_get : (key : Text) (s : Session) → Telling s.page (get_key key s).page
  unfolding get_key
  Telling-click_get [] s = told _ refl refl refl
  Telling-click_get (u ∷ key) s =
      elim (encode_uri_component (u ∷ key))
        as (λ e. Telling s.page (get_encoded (u ∷ key) e s).page) [
          | none ↦ told _ refl refl refl
          | some e ↦ silent refl refl
        ]

  Telling-click_delete :
      (key : Text) (answer : Bool) (s : Session) → Telling s.page (delete_key key answer s).page
  unfolding delete_key
  Telling-click_delete [] answer s = told _ refl refl refl
  Telling-click_delete (u ∷ key) false s = silent refl refl
  Telling-click_delete (u ∷ key) true s =
      elim (encode_uri_component (u ∷ key))
        as (λ e. Telling s.page (delete_encoded (u ∷ key) e s).page) [
          | none ↦ told _ refl refl refl
          | some e ↦ silent refl refl
        ]

  Telling-click_put : (key raw : Text) (s : Session) → Telling s.page (put_key js key raw s).page
  unfolding put_key
  Telling-click_put [] raw s = told _ refl refl refl
  Telling-click_put (u ∷ key) raw s = silent refl refl

  Telling-format : (p : Page) → Telling p (format_json_input js p)
  unfolding format_json_input
  Telling-format p = elim (Option-cases (js.parse_json p.mutation_val)) [
    | inl e ↦ rw (e, format_json_input) (told _ refl refl refl)
    | inr (j, e) ↦ rw (e, format_json_input) (silent refl refl)
  ]

  module _ (Keeps : Page → Type 0) (Fires : ℕ → Type 0)
      (tells : (p q : Page) → Telling p q → Keeps p → Keeps q)
      (expires : (id : ℕ) (p : Page) → Fires id → Keeps p → Keeps (expire id p)) where
    handle-Keeps :
        (e : Event) (s : Session) → Allowed Fires e → Keeps s.page → Keeps (handle js e s).page
    unfolding handle copy_inspector
    handle-Keeps (edit_search v) s w h = tells s.page _ (silent refl refl) h
    handle-Keeps (edit_key v) s w h = tells s.page _ (silent refl refl) h
    handle-Keeps (edit_val v) s w h = tells s.page _ (silent refl refl) h
    handle-Keeps click_get s w h = tells _ _ (Telling-click_get (trim s.page.search_key) s) h
    handle-Keeps click_put s w h =
        tells _ _ (Telling-click_put (trim s.page.mutation_key) (trim s.page.mutation_val) s) h
    handle-Keeps click_format s w h = tells _ _ (Telling-format s.page) h
    handle-Keeps click_copy s w h =
        tells s.page (copy_inspector js s.page) (told _ refl refl refl) h
    handle-Keeps (click_delete answer) s w h =
        tells _ _ (Telling-click_delete (trim s.page.search_key) answer s) h
    handle-Keeps tick s w h = h
    handle-Keeps (timer id) s w h = expires id s.page w h
    handle-Keeps (arrive i o) s w h =
        elim (take_out s.pending i) as (λ r. Keeps (arrival js r o s).page) [
          | none ↦ h
          | some (c, ps) ↦ tells _ _ (Telling-finish js c o (record s { pending = ps })) h
        ]

    -- What each telling keeps, and each timer that may end, any session keeps.
    pub run-Keeps :
        (es : List Event) (s : Session)
        → All (Allowed Fires) es
        → Keeps s.page
        → Keeps (run js es s).page
    unfolding run
    run-Keeps [] s w h = h
    run-Keeps (e ∷ es) s (w, ws) h = run-Keeps es (handle js e s) ws (handle-Keeps e s w h)
