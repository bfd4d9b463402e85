-- ===== src/Hooks/Api/Answers.antt =====
-- api-client.ts: the answers of the server that api passes on.
use beast_db.Prelude.{ℕ, ◌≡◌, ◌⊎◌, true, false, ◌||◌, Option, none, ◌==◌, arith}
use beast_db.Js.Text.{Text}
use beast_db.Js.Fetch.{is_ok}
use beast_db.Hooks.Api.{Result, done, response, api, body}

-- A value comes from a response whose status is in 200-299, and not 201 or 204: those give
-- `undefined`. In every other case the call fails with a message.
pub api-done :
    {T : Type 0} (url : Text) (status : ℕ) (text : Result Text) (json : Result T) (v : Option T)
    → api url (response status text json) ≡ done v
    → (is_ok status ≡ true)
      × ((((status == 204) || (status == 201)) ≡ true) × (v ≡ none)
          ⊎ ((((status == 204) || (status == 201)) ≡ false) × (body json ≡ done v)))
unfolding api
api-done url status text json v e = ground arith
