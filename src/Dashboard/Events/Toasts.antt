-- ===== src/Dashboard/Events/Toasts.antt =====
-- dashboard.js: the toasts of the handlers, when an outcome arrives.
use mathlib.Core.List.{map-append}
use beast_db.Prelude.{
  ℕ, ◌≡◌, refl, ap, Bool, true, false, List, [], ◌∷◌, ◌++◌, map, arith, ◌∙◌, append-nil,
  if◌then◌else◌,
}
use beast_db.Js.Text.{Text}
use beast_db.Js.Platform.{Platform}
use beast_db.Dashboard.{
  Kind, success, error, Toast, Page, Pending, telemetry, getting, putting, deleting, Outcome, lost,
  cut, full, Session, is_ok, show_toast, finish_telemetry, finish_get, finish_put, finish_delete,
  after_delete,
}
use beast_db.Dashboard.Events.{refetch, finish}

abbrev pub kinds : Page → List Kind
kinds p = map (λ t. t.kind) p.toasts

abbrev pub status_kind : ℕ → Kind
status_kind status = if is_ok status then success else error

-- What a call is to report; a GET needs the body, a write its status alone.
abbrev pub verdict : Pending → Outcome → List Kind
verdict telemetry o = []
verdict (getting key) (full status body) = status_kind status ∷ []
verdict (getting key) _ = error ∷ []
verdict _ lost = error ∷ []
verdict _ (cut status) = status_kind status ∷ []
verdict _ (full status body) = status_kind status ∷ []

kinds-show_toast : (m : Text) (k : Kind) (p : Page) → kinds (show_toast m k p) ≡ kinds p ++ k ∷ []
unfolding show_toast
kinds-show_toast m k p =
    map-append (λ t. t.kind) p.toasts (record { id = p.next_toast; message = m; kind = k } ∷ [])

-- The same, whatever else is written.
kinds-append :
    (ts : List Toast) (t : Toast)
    → map (λ t. t.kind) (ts ++ t ∷ []) ≡ map (λ t. t.kind) ts ++ t.kind ∷ []
kinds-append ts t = map-append (λ t. t.kind) ts (t ∷ [])

kinds-refetch : (r : Page × Bool) (s : Session) → kinds (refetch r s).page ≡ kinds r.0
unfolding refetch
kinds-refetch (p, true) s = refl
kinds-refetch (p, false) s = refl

-- One toast on either branch.
kinds-if :
    (b : Bool) (x y : Page) (ts : List Kind)
    → kinds x ≡ ts ++ success ∷ []
    → kinds y ≡ ts ++ error ∷ []
    → kinds (if b then x else y) ≡ ts ++ (if b then success else error) ∷ []
kinds-if true x y ts h k = h
kinds-if false x y ts h k = k

kinds-if_pair :
    (b : Bool) (x y : Page × Bool) (ts : List Kind)
    → kinds x.0 ≡ ts ++ success ∷ []
    → kinds y.0 ≡ ts ++ error ∷ []
    → kinds (if◌then◌else◌ {A = Page × Bool} b x y).0 ≡ ts ++ (if b then success else error) ∷ []
kinds-if_pair true x y ts h k = h
kinds-if_pair false x y ts h k = k

module _ (js : Platform) where
  pub toasts-finish_telemetry :
      (o : Outcome) (p : Page) → (finish_telemetry js o p).toasts ≡ p.toasts
  unfolding finish_telemetry
  toasts-finish_telemetry lost p = refl
  toasts-finish_telemetry (cut status) p = refl
  toasts-finish_telemetry (full status body) p = ground arith

  pub next_toast-finish_telemetry :
      (o : Outcome) (p : Page) → (finish_telemetry js o p).next_toast ≡ p.next_toast
  unfolding finish_telemetry
  next_toast-finish_telemetry lost p = refl
  next_toast-finish_telemetry (cut status) p = refl
  next_toast-finish_telemetry (full status body) p = ground arith

  kinds-finish_get :
      (key : Text) (o : Outcome) (p : Page)
      → kinds (finish_get js key o p) ≡ kinds p ++ verdict (getting key) o
  unfolding finish_get
  kinds-finish_get key lost p = kinds-append p.toasts _
  kinds-finish_get key (cut status) p = kinds-append p.toasts _
  kinds-finish_get key (full status body) p =
      kinds-if (is_ok status) _ _ (kinds p) (kinds-append p.toasts _) (kinds-append p.toasts _)

  kinds-finish_put :
      (key raw : Text) (o : Outcome) (p : Page)
      → kinds (finish_put js key raw o p).0 ≡ kinds p ++ verdict (putting key raw) o
  unfolding finish_put
  kinds-finish_put key raw lost p = kinds-append p.toasts _
  kinds-finish_put key raw (cut status) p =
      kinds-if_pair (is_ok status) _ _ (kinds p) (kinds-append p.toasts _) (kinds-append p.toasts _)
  kinds-finish_put key raw (full status body) p =
      kinds-if_pair (is_ok status) _ _ (kinds p) (kinds-append p.toasts _) (kinds-append p.toasts _)

  kinds-after_delete :
      (key : Text) (status : ℕ) (p : Page)
      → kinds (after_delete js key status p).0 ≡ kinds p ++ status_kind status ∷ []
  unfolding after_delete
  kinds-after_delete key status p =
      kinds-if_pair (is_ok status) _ _ (kinds p) (kinds-append p.toasts _) (kinds-append p.toasts _)

  kinds-finish_delete :
      (key : Text) (o : Outcome) (p : Page)
      → kinds (finish_delete js key o p).0 ≡ kinds p ++ verdict (deleting key) o
  unfolding finish_delete show_toast
  kinds-finish_delete key lost p = kinds-append p.toasts _
  kinds-finish_delete key (cut status) p = kinds-after_delete key status p
  kinds-finish_delete key (full status body) p = kinds-after_delete key status p

-- When the outcome of a GET, a write or a delete arrives the user gets exactly one toast more: a
-- success if the status is in 200-299 (and, for a GET, the body can be read), an error otherwise.
-- Telemetry tells the user nothing.
pub kinds-finish :
    (js : Platform) (p : Pending) (o : Outcome) (s : Session)
    → kinds (finish js p o s).page ≡ kinds s.page ++ verdict p o
unfolding finish
kinds-finish js telemetry o s =
    rw (append-nil (kinds s.page)) (ap (map (λ t. t.kind)) (toasts-finish_telemetry js o s.page))
kinds-finish js (getting key) o s = kinds-finish_get js key o s.page
kinds-finish js (putting key raw) o s =
    kinds-refetch (finish_put js key raw o s.page) s ∙ kinds-finish_put js key raw o s.page
kinds-finish js (deleting key) o s =
    kinds-refetch (finish_delete js key o s.page) s ∙ kinds-finish_delete js key o s.page
