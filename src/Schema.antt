-- ===== src/Schema.antt =====
-- studio/src/utils/schema-inference.ts: the name of a collection, guessed from its records.
pub mod Names
pub mod Fields
pub mod Infer
