-- ===== src/Provider.antt =====
-- What the providers make of a request (funera_core/src/provider.rs and provider/).
pub mod Request
pub mod Merge
pub mod Chunk
