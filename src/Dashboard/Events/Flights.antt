-- ===== src/Dashboard/Events/Flights.antt =====
-- dashboard.js: the requests in flight and those that were sent.
use beast_db.Prelude.{
  ℕ, ◌≡◌, ◌≢◌, refl, Bool, true, false, none, some, List, [], ◌∷◌, All, All-append, All-of,
  take_out, take_out-All, Option-cases, inl, inr,
}
use beast_db.Js.Text.{Text, units, trim}
use beast_db.Js.Uri.{encode_uri_component}
use beast_db.Js.Platform.{Platform}
use beast_db.Js.Fetch.{Request}
use beast_db.Dashboard.{
  Page, Pending, telemetry, getting, putting, deleting, Outcome, Session, finish_put, finish_delete,
}
use beast_db.Dashboard.Events.{
  Event, edit_search, edit_key, edit_val, click_get, click_put, click_format, click_copy,
  click_delete, tick, timer, arrive, get_key, get_encoded, delete_key, delete_encoded, put_key,
  refetch, finish, arrival, handle, run, send,
}

-- The call of a key has a key.
abbrev pub HasKey : Pending → Type 0
HasKey telemetry = Unit
HasKey (getting key) = key ≢ []
HasKey (putting key raw) = key ≢ []
HasKey (deleting key) = key ≢ []

abbrev pub IsRead : Request → Type 0
IsRead r = r.method ≡ units "GET"

-- The events that may write: a click on PUT, and a delete that the user confirms.
abbrev pub MayWrite : Event → Type 0
MayWrite click_put = Unit
MayWrite (click_delete true) = Unit
MayWrite _ = ⊥

-- A property of the requests in flight and of those sent is kept, if each new one has it.
module _ (P : Pending → Type 0) (R : Request → Type 0) where
  pub record Holds (s : Session) : Type 0 where
    pub in_flight : All P s.pending
    pub were_sent : All R s.sent

  Holds-send : (c : Pending) (r : Request) (s : Session) → P c → R r → Holds s → Holds (send c r s)
  Holds-send c r s p q h = record {
    in_flight = All-append P s.pending (c ∷ []) h.in_flight (p, tt);
    were_sent = All-append R s.sent (r ∷ []) h.were_sent (q, tt);
  }

  Holds-page : (s : Session) (p : Page) → Holds s → Holds (record s { page = p })
  Holds-page s p h = record { in_flight = h.in_flight; were_sent = h.were_sent }

HasKey-cons : (u : ℕ) (s : Text) → ◌≢◌ {A = Text} (u ∷ s) []
HasKey-cons u s e = cc

module _ (js : Platform) (R : Request → Type 0) (reads : (r : Request) → IsRead r → R r) where
  Holds-refetch : (r : Page × Bool) (s : Session) → Holds HasKey R s → Holds HasKey R (refetch r s)
  unfolding refetch
  Holds-refetch (p, true) s h =
      Holds-send HasKey R telemetry _ _ tt (reads _ refl) (Holds-page HasKey R s p h)
  Holds-refetch (p, false) s h = Holds-page HasKey R s p h

  Holds-finish :
      (c : Pending) (o : Outcome) (s : Session)
      → Holds HasKey R s
      → Holds HasKey R (finish js c o s)
  unfolding finish
  Holds-finish telemetry o s h = Holds-page HasKey R s _ h
  Holds-finish (getting key) o s h = Holds-page HasKey R s _ h
  Holds-finish (putting key raw) o s h = Holds-refetch (finish_put js key raw o s.page) s h
  Holds-finish (deleting key) o s h = Holds-refetch (finish_delete js key o s.page) s h

  Holds-arrival :
      (i : ℕ) (o : Outcome) (s : Session)
      → Holds HasKey R s
      → Holds HasKey R (arrival js (take_out s.pending i) o s)
  unfolding arrival
  Holds-arrival i o s h = elim (Option-cases (take_out s.pending i)) [
    | inl e ↦ rw (e, arrival) h
    | inr ((c, qs), e) ↦
        rw (e, arrival)
          (Holds-finish c o (record s { pending = qs })
            (record {
              in_flight = (take_out-All HasKey s.pending i c qs e h.in_flight).1;
              were_sent = h.were_sent;
            }))
  ]

  Holds-get : (key : Text) (s : Session) → Holds HasKey R s → Holds HasKey R (get_key key s)
  unfolding get_key
  Holds-get [] s h = Holds-page HasKey R s _ h
  Holds-get (u ∷ key) s h =
      elim (encode_uri_component (u ∷ key)) as (λ e. Holds HasKey R (get_encoded (u ∷ key) e s)) [
        | none ↦ Holds-page HasKey R s _ h
        | some e ↦ Holds-send HasKey R (getting (u ∷ key)) _ s (HasKey-cons u key) (reads _ refl) h
      ]

  Holds-delete :
      (key : Text) (answer : Bool) (s : Session)
      → ((r : Request) → answer ≡ true → R r)
      → Holds HasKey R s
      → Holds HasKey R (delete_key key answer s)
  unfolding delete_key
  Holds-delete [] answer s w h = Holds-page HasKey R s _ h
  Holds-delete (u ∷ key) false s w h = h
  Holds-delete (u ∷ key) true s w h =
      elim (encode_uri_component (u ∷ key))
        as (λ e. Holds HasKey R (delete_encoded (u ∷ key) e s)) [
          | none ↦ Holds-page HasKey R s _ h
          | some e ↦ Holds-send HasKey R (deleting (u ∷ key)) _ s (HasKey-cons u key) (w _ refl) h
        ]

  Holds-put :
      (key raw : Text) (s : Session)
      → ((r : Request) → R r)
      → Holds HasKey R s
      → Holds HasKey R (put_key js key raw s)
  unfolding put_key
  Holds-put [] raw s w h = Holds-page HasKey R s _ h
  Holds-put (u ∷ key) raw s w h =
      Holds-send HasKey R (putting (u ∷ key) raw) _ s (HasKey-cons u key) (w _) h

  abbrev Allowed : Event → Type 0
  Allowed e = MayWrite e → (r : Request) → R r

  Holds-handle :
      (e : Event) (s : Session) → Allowed e → Holds HasKey R s → Holds HasKey R (handle js e s)
  unfolding handle
  Holds-handle (edit_search v) s w h = Holds-page HasKey R s _ h
  Holds-handle (edit_key v) s w h = Holds-page HasKey R s _ h
  Holds-handle (edit_val v) s w h = Holds-page HasKey R s _ h
  Holds-handle click_get s w h = Holds-get (trim s.page.search_key) s h
  Holds-handle click_put s w h =
      Holds-put (trim s.page.mutation_key) (trim s.page.mutation_val) s (w tt) h
  Holds-handle click_format s w h = Holds-page HasKey R s _ h
  Holds-handle click_copy s w h = Holds-page HasKey R s _ h
  Holds-handle (click_delete true) s w h =
      Holds-delete (trim s.page.search_key) true s (λ r e. w tt r) h
  Holds-handle (click_delete false) s w h =
      Holds-delete (trim s.page.search_key) false s (λ r e. cc) h
  Holds-handle tick s w h = Holds-send HasKey R telemetry _ s tt (reads _ refl) h
  Holds-handle (timer id) s w h = Holds-page HasKey R s _ h
  Holds-handle (arrive i o) s w h = Holds-arrival i o s h

  Holds-run :
      (es : List Event) (s : Session)
      → All Allowed es
      → Holds HasKey R s
      → Holds HasKey R (run js es s)
  unfolding run
  Holds-run [] s w h = h
  Holds-run (e ∷ es) s (w, ws) h = Holds-run es (handle js e s) ws (Holds-handle e s w h)

-- From a session with nothing in flight, whatever the events and their order, no request for an
-- empty key is in flight.
pub run-HasKey :
    (js : Platform) (es : List Event) (s : Session)
    → s.pending ≡ []
    → All HasKey (run js es s).pending
run-HasKey js es s h =
    (Holds-run js (λ r. Unit {0}) (λ r _. tt) es s (All-of _ es (λ e w r. tt))
      (record { in_flight = rw h tt; were_sent = All-of _ s.sent (λ r. tt) })).in_flight

Allowed-of :
    (js : Platform) (es : List Event)
    → All (λ e. ¬ MayWrite e) es
    → All (λ e. MayWrite e → (r : Request) → IsRead r) es
Allowed-of js [] h = tt
Allowed-of js (e ∷ es) (p, h) = (λ w. absurd (p w), Allowed-of js es h)

-- From a session with nothing in flight that has sent nothing but GETs: without a click on PUT and
-- without a delete that the user confirms, every request that the page sends is a GET, in any
-- order of events and outcomes.
pub run-IsRead :
    (js : Platform) (es : List Event) (s : Session)
    → s.pending ≡ []
    → All IsRead s.sent
    → All (λ e. ¬ MayWrite e) es
    → All IsRead (run js es s).sent
run-IsRead js es s p q w =
    (Holds-run js IsRead (λ r h. h) es s (Allowed-of js es w)
      (record { in_flight = rw p tt; were_sent = q })).were_sent
