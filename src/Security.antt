-- ===== src/Security.antt =====
-- The security layer (funera_core/src/security/).
pub mod Error
pub mod Shell
pub mod Policy
pub mod PathGuard
pub mod Sandbox
pub mod Audit
pub mod Boundary
pub mod Registry
pub mod WinSandbox
