-- ===== src/Orchestrate.antt =====
-- The builder API's crate (funera-orchestrate/src/).
pub mod Event
pub mod Turns
pub mod Ids
pub mod Dispatcher
pub mod Response
pub mod Agent
pub mod Builder
pub mod Runtime
