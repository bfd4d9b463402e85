-- ===== src/ApiTokens/Events/Loading.antt =====
-- When the dialog of the tokens says that it is loading.
use beast_db.Prelude.{
  ℕ, zero, suc, ◌≤◌, ◌≡◌, refl, Bool, true, false, Option, none, some, List, [], ◌∷◌, ◌++◌, arith,
  take_out, if◌then◌else◌, Option-cases, Bool-cases, inl, inr, count, count-append, count-take_out,
}
use beast_db.Js.Text.{Text, units, trim}
use beast_db.Js.Uri.{encode_uri_component}
use beast_db.Js.Fetch.{is_ok}
use beast_db.Hooks.Api.{Result, failed, done, Reply, lost, response}
use beast_db.Types.{ApiTokenItem}
use beast_db.ApiTokens.{
  Dialog, Call, listing, creation, deletion, Session, fetch_tokens, open_dialog, post_token,
  handle_create, delete_encoded, copy_secret, copy_to_clipboard,
}
use beast_db.ApiTokens.Events.{
  BodyOf, listed, created, refused, got_creation, got_deletion, finish, Event, open_it,
  start_creating, cancel, submit, copy, expire, type_name, choose_role, delete, arrive, Messages,
  arrival, fire, handle, run,
}

abbrev pub is_listing : Call → Bool
is_listing listing = true
is_listing creation = false
is_listing deletion = false

-- The dialog is loading only while a list is on its way.
abbrev pub IsAwaited : Session → Type 0
IsAwaited s = (if s.dialog.loading then 1 else 0) ≤ count is_listing s.pending

fetch_tokens-IsAwaited : (s : Session) → IsAwaited (fetch_tokens s)
unfolding fetch_tokens
fetch_tokens-IsAwaited s = ground (arith, count-append is_listing s.pending (listing ∷ []))

created-IsAwaited : (o : Result (Option Text)) (s : Session) → IsAwaited s → IsAwaited (created o s)
unfolding created
created-IsAwaited (failed m) s h = h
created-IsAwaited (done token) s h =
    ground (arith, count-append is_listing s.pending (listing ∷ []))

refused-IsAwaited : (text : Result Text) (s : Session) → IsAwaited s → IsAwaited (refused text s)
unfolding refused
refused-IsAwaited (failed m) s h = h
refused-IsAwaited (done t) s h = h

listed-loading :
    (r : Reply (Option (List ApiTokenItem))) (d : Dialog) → (listed r d).loading ≡ false
unfolding listed
listed-loading lost d = refl
listed-loading (response status text json) d = refl

finish-IsAwaited :
    (m : Text) (c : Call) (r : Reply (BodyOf c)) (s : Session)
    → (is_listing c ≡ false → IsAwaited s)
    → IsAwaited (finish m c r s)
unfolding finish got_creation got_deletion
finish-IsAwaited m listing r s h = ground (arith, listed-loading r s.dialog)
finish-IsAwaited m creation lost s h = h refl
finish-IsAwaited m creation (response status text json) s h = elim (Bool-cases (is_ok status)) [
  | inl e ↦ rw e (created-IsAwaited json s (h refl))
  | inr e ↦ rw e (refused-IsAwaited text s (h refl))
]
finish-IsAwaited m deletion lost s h = h refl
finish-IsAwaited m deletion (response status text json) s h = elim (Bool-cases (is_ok status)) [
  | inl e ↦ rw e (
      fetch_tokens-IsAwaited
        (record s { notices = s.notices ++ (units "Token revoked.", false) ∷ [] }))
  | inr e ↦ rw e (refused-IsAwaited text s (h refl))
]

arrival-IsAwaited :
    (m : Text) (i : ℕ) (answer : (c : Call) → Reply (BodyOf c)) (s : Session)
    → IsAwaited s
    → IsAwaited (arrival m (take_out s.pending i) answer s)
unfolding arrival
arrival-IsAwaited m i answer s h = elim (Option-cases (take_out s.pending i)) [
  | inl e ↦ rw e h
  | inr ((c, cs), e) ↦
      let same = count-take_out is_listing s.pending i c cs e in
      rw e (finish-IsAwaited m c (answer c) (record s { pending = cs }) (λ k. ground arith))
]

fire-IsAwaited : (n : ℕ) (s : Session) → IsAwaited s → IsAwaited (fire n s)
unfolding fire
fire-IsAwaited zero s h = h
fire-IsAwaited (suc n) s h = h

post_token-IsAwaited : (name : Text) (s : Session) → IsAwaited s → IsAwaited (post_token name s)
unfolding post_token
post_token-IsAwaited [] s h = h
post_token-IsAwaited (u ∷ name) s h =
    omega (arith, count-append is_listing s.pending (creation ∷ []))

delete_encoded-IsAwaited :
    (m : Text) (o : Option Text) (s : Session) → IsAwaited s → IsAwaited (delete_encoded m o s)
unfolding delete_encoded
delete_encoded-IsAwaited m none s h = h
delete_encoded-IsAwaited m (some e) s h =
    omega (arith, count-append is_listing s.pending (deletion ∷ []))

copy_secret-IsAwaited : (o : Option Text) (s : Session) → IsAwaited s → IsAwaited (copy_secret o s)
unfolding copy_secret
copy_secret-IsAwaited none s h = h
copy_secret-IsAwaited (some []) s h = h
copy_secret-IsAwaited (some (u ∷ t)) s h = h

handle-IsAwaited :
    (ms : Messages) (e : Event) (s : Session) → IsAwaited s → IsAwaited (handle ms e s)
unfolding handle
handle-IsAwaited ms open_it s h = unfold open_dialog in fetch_tokens-IsAwaited s
handle-IsAwaited ms start_creating s h = h
handle-IsAwaited ms cancel s h = h
handle-IsAwaited ms submit s h =
    unfold handle_create in post_token-IsAwaited (trim s.dialog.name) s h
handle-IsAwaited ms copy s h =
    unfold copy_to_clipboard in copy_secret-IsAwaited s.dialog.new_secret s h
handle-IsAwaited ms expire s h = fire-IsAwaited s.timers s h
handle-IsAwaited ms (type_name name) s h = h
handle-IsAwaited ms (choose_role role) s h = h
handle-IsAwaited ms (delete id) s h =
    delete_encoded-IsAwaited ms.malformed (encode_uri_component id) s h
handle-IsAwaited ms (arrive i answer) s h = arrival-IsAwaited ms.trouble i answer s h

-- However events and answers follow one another, the dialog is loading only while a list of the
-- tokens is on its way, if that held before; so it is not loading when every call is answered.
pub run-IsAwaited :
    (ms : Messages) (es : List Event) (s : Session) → IsAwaited s → IsAwaited (run ms es s)
unfolding run
run-IsAwaited ms [] s h = h
run-IsAwaited ms (e ∷ es) s h = run-IsAwaited ms es (handle ms e s) (handle-IsAwaited ms e s h)
