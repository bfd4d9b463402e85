-- ===== src/Js/Platform.antt =====
-- What the models take from the JavaScript engine: the JSON object and Number on texts, which
-- turn on binary floating point.
use beast_db.Prelude.{Option}
use beast_db.Js.Text.{Text}
use beast_db.Js.Json.{Json}

pub record Platform : Type 0 where
  -- JSON.parse(s); none is the SyntaxError.
  pub parse_json : Text → Option Json
  -- JSON.stringify(j, null, 2)
  pub pretty : Json → Text
  -- The value of Number(s) as JSON.stringify writes it: NaN is null there.
  pub number : Text → Json
  -- The message of the TypeError where a property of `undefined` is read.
  pub no_property : Text → Text
