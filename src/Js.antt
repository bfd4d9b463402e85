-- ===== src/Js.antt =====
-- What the Studio uses of the JavaScript language and its standard library.
pub mod Text
pub mod Case
pub mod Bits
pub mod Radix
pub mod BigInt
pub mod Json
pub mod Uri
pub mod Regex
pub mod Platform
pub mod Fetch
