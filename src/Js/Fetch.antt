-- ===== src/Js/Fetch.antt =====
-- fetch: a request, and what becomes of it.
use beast_db.Prelude.{ℕ, Bool, ◌&&◌, Option, ltb, leb}
use beast_db.Js.Text.{Text}
use beast_db.Js.Json.{Json}

pub record Request : Type 0 where
  pub method : Text
  pub url : Text
  pub body : Option Json

-- res.ok
abbrev pub is_ok : ℕ → Bool
is_ok status = leb 200 status && ltb status 300
