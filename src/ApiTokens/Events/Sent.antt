-- ===== src/ApiTokens/Events/Sent.antt =====
-- The names of the tokens that the dialog asks for.
use beast_db.Prelude.{
  ℕ, zero, suc, ◌≡◌, refl, Bool, true, false, not, ◌&&◌, ◌||◌, Option, none, some, List, [], ◌∷◌,
  All, All-append, take_out, Bool-cases, inl, inr,
}
use beast_db.Js.Text.{Text, units, same, same_refl, trim}
use beast_db.Js.Text.Trim.{trim-trim}
use beast_db.Js.Json.{Json, str, obj, field}
use beast_db.Js.Uri.{encode_uri_component}
use beast_db.Js.Fetch.{Request, is_ok}
use beast_db.Hooks.Api.{Result, failed, done, Reply, lost, response}
use beast_db.ApiTokens.{
  Call, listing, creation, deletion, Session, fetch_tokens, open_dialog, post_token, handle_create,
  delete_encoded, copy_secret, copy_to_clipboard,
}
use beast_db.ApiTokens.Events.{
  BodyOf, created, refused, got_creation, got_deletion, finish, Event, open_it, start_creating,
  cancel, submit, copy, expire, type_name, choose_role, delete, arrive, Messages, arrival, fire,
  handle, run,
}

-- Does the document begin with a property `name` that is a text with no space at its ends, and not
-- empty?
abbrev pub has_name : Option Json → Bool
has_name (some (obj (field k (str (u ∷ w)) fs))) =
    same k (units "name") && same (trim (u ∷ w)) (u ∷ w)
has_name _ = false

abbrev pub is_careful : Request → Bool
is_careful r = not (same r.method (units "POST")) || has_name r.body

abbrev IsCareful : Session → Type 0
IsCareful s = All (λ r. is_careful r ≡ true) s.sent

fetch_tokens-IsCareful : (s : Session) → IsCareful s → IsCareful (fetch_tokens s)
unfolding fetch_tokens
fetch_tokens-IsCareful s h = All-append _ s.sent _ h (refl, tt)

post_token-IsCareful :
    (name : Text) (s : Session) → trim name ≡ name → IsCareful s → IsCareful (post_token name s)
unfolding post_token
post_token-IsCareful [] s e h = h
post_token-IsCareful (u ∷ name) s e h =
    All-append _ s.sent _ h (rw (e, same_refl (u ∷ name)) refl, tt)

delete_encoded-IsCareful :
    (m : Text) (o : Option Text) (s : Session) → IsCareful s → IsCareful (delete_encoded m o s)
unfolding delete_encoded
delete_encoded-IsCareful m none s h = h
delete_encoded-IsCareful m (some e) s h = All-append _ s.sent _ h (refl, tt)

copy_secret-IsCareful : (o : Option Text) (s : Session) → IsCareful s → IsCareful (copy_secret o s)
unfolding copy_secret
copy_secret-IsCareful none s h = h
copy_secret-IsCareful (some []) s h = h
copy_secret-IsCareful (some (u ∷ t)) s h = h

refused-IsCareful : (text : Result Text) (s : Session) → IsCareful s → IsCareful (refused text s)
unfolding refused
refused-IsCareful (failed m) s h = h
refused-IsCareful (done t) s h = h

created-IsCareful : (o : Result (Option Text)) (s : Session) → IsCareful s → IsCareful (created o s)
unfolding created
created-IsCareful (failed m) s h = h
created-IsCareful (done token) s h = fetch_tokens-IsCareful s h

got_creation-IsCareful :
    (m : Text) (r : Reply (Option Text)) (s : Session)
    → IsCareful s
    → IsCareful (got_creation m r s)
unfolding got_creation
got_creation-IsCareful m lost s h = h
got_creation-IsCareful m (response status text json) s h = elim (Bool-cases (is_ok status)) [
  | inl e ↦ rw e (created-IsCareful json s h)
  | inr e ↦ rw e (refused-IsCareful text s h)
]

got_deletion-IsCareful :
    (m : Text) (r : Reply (Unit {0})) (s : Session) → IsCareful s → IsCareful (got_deletion m r s)
unfolding got_deletion
got_deletion-IsCareful m lost s h = h
got_deletion-IsCareful m (response status text json) s h = elim (Bool-cases (is_ok status)) [
  | inl e ↦ rw e (fetch_tokens-IsCareful s h)
  | inr e ↦ rw e (refused-IsCareful text s h)
]

finish-IsCareful :
    (m : Text) (c : Call) (r : Reply (BodyOf c)) (s : Session)
    → IsCareful s
    → IsCareful (finish m c r s)
unfolding finish
finish-IsCareful m listing r s h = h
finish-IsCareful m creation r s h = got_creation-IsCareful m r s h
finish-IsCareful m deletion r s h = got_deletion-IsCareful m r s h

fire-IsCareful : (n : ℕ) (s : Session) → IsCareful s → IsCareful (fire n s)
unfolding fire
fire-IsCareful zero s h = h
fire-IsCareful (suc n) s h = h

arrival-IsCareful :
    (m : Text) (o : Option (Call × List Call)) (answer : (c : Call) → Reply (BodyOf c))
    (s : Session)
    → IsCareful s
    → IsCareful (arrival m o answer s)
unfolding arrival
arrival-IsCareful m none answer s h = h
arrival-IsCareful m (some (c, cs)) answer s h =
    finish-IsCareful m c (answer c) (record s { pending = cs }) h

handle-IsCareful :
    (ms : Messages) (e : Event) (s : Session) → IsCareful s → IsCareful (handle ms e s)
unfolding handle
handle-IsCareful ms open_it s h = unfold open_dialog in fetch_tokens-IsCareful s h
handle-IsCareful ms start_creating s h = h
handle-IsCareful ms cancel s h = h
handle-IsCareful ms submit s h =
    unfold handle_create in post_token-IsCareful (trim s.dialog.name) s (trim-trim s.dialog.name) h
handle-IsCareful ms copy s h =
    unfold copy_to_clipboard in copy_secret-IsCareful s.dialog.new_secret s h
handle-IsCareful ms expire s h = fire-IsCareful s.timers s h
handle-IsCareful ms (type_name name) s h = h
handle-IsCareful ms (choose_role role) s h = h
handle-IsCareful ms (delete id) s h =
    delete_encoded-IsCareful ms.malformed (encode_uri_component id) s h
handle-IsCareful ms (arrive i answer) s h =
    arrival-IsCareful ms.trouble (take_out s.pending i) answer s h

-- In any order of events and answers, every POST that the dialog has sent asks for a name with no
-- space at its ends that is not empty, if that held before.
pub sent-run :
    (ms : Messages) (es : List Event) (s : Session)
    → All (λ r. is_careful r ≡ true) s.sent
    → All (λ r. is_careful r ≡ true) (run ms es s).sent
unfolding run
sent-run ms [] s h = h
sent-run ms (e ∷ es) s h = sent-run ms es (handle ms e s) (handle-IsCareful ms e s h)
