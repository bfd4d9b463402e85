-- ===== src/Keys.antt =====
-- The 64-bit keys of the Studio: hashing an identifier, building a key, and taking it apart.
pub mod Format
pub mod Registry
pub mod Decoder
