-- ===== src/Env.antt =====
-- The environment (funera_core/src/env.rs, env_actor.rs, re_act/skills.rs).
pub mod Skills
pub mod Disposers
pub mod State
pub mod Actor
pub mod Synced
pub mod Watcher
pub mod Build
