-- ===== src/Payload.antt =====
-- studio/src/utils/data-parser.ts: what the Studio shows of a stored value.
pub mod Values
pub mod Attributes
pub mod Parse
