-- ===== src/Hooks.antt =====
-- The hooks of the Studio: the calls of the server, and the state that its answers build.
pub mod Api
pub mod Ranges
pub mod Data
pub mod UserContext
pub mod Reads
pub mod PartitionNames
