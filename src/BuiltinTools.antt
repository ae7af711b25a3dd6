-- ===== src/BuiltinTools.antt =====
-- The crate funera_builtin_tools.
pub mod Str
pub mod Hashline
pub mod Edit
pub mod Read
pub mod Write
pub mod Register
pub mod Shell
