-- ===== src/Hooks/Api.antt =====
-- studio/src/lib/api-client.ts: the answer of the server as a value or an error's message. What an
-- answer holds is typed as the caller's type argument says.
pub mod Answers
use beast_db.Prelude.{ℕ, ◌||◌, Option, none, some, [], ◌∷◌, ◌==◌, if◌then◌else◌, not}
use beast_db.Js.Text.{Text, units, trim, starts_with}
use beast_db.Js.Fetch.{is_ok}

pub data Result {ℓ} (T : Type ℓ) : Type ℓ where
  failed : Text → Result T
  done : T → Result T

-- What becomes of fetch: it rejects, or there is a response with its status, and with what its
-- text() and its json() come to.
pub data Reply {ℓ} (T : Type ℓ) : Type ℓ where
  lost : Reply T
  response : ℕ → Result Text → Result T → Reply T

-- The message for a refusal: its text, unless that is blank.
refusal : Text → Text
refusal [] = units "Request failed."
refusal (u ∷ s) = u ∷ s

module _ {ℓ} {T : Type ℓ} where
  pub refused : Result Text → Result (Option T)
  unfolding refusal
  refused (failed m) = failed m
  refused (done text) = failed (refusal (trim text))

  pub body : Result T → Result (Option T)
  body (failed m) = failed m
  body (done t) = done (some t)

  -- api(url), once fetch has settled; none is `undefined`.
  unfoldable pub api : Text → Reply T → Result (Option T)
  unfolding refused body
  api url lost = failed (units "Cannot reach BeastDB. Check your connection and retry.")
  api url (response status text json) =
      if status == 401
      then failed (units "Your session expired. Sign in again.")
      else if status == 403
      then failed (units "Your account cannot make this change.")
      else if status == 404
      then failed (
          if starts_with url (units "/api/key?")
          then units "That record was not found."
          else units "Data endpoint unavailable.")
      else if not (is_ok status)
      then refused text
      else if (status == 204) || (status == 201)
      then done none
      else body json
