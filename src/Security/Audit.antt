-- ===== src/Security/Audit.antt =====
-- `AuditEvent` of funera_core/src/security/audit.rs. The bus is the list of the events reported to
-- it; the clock's reading is an argument.
use funera.Prelude.{Option, Bool, ℕ, String}

pub data AuditEvent : Type 0 where
  tool_executed : String → ℕ → Bool → Option String → ℕ → AuditEvent
  tool_denied : String → String → ℕ → AuditEvent
  policy_violated : String → ℕ → AuditEvent
  sandbox_applied : String → String → ℕ → AuditEvent
  sandbox_skipped : String → ℕ → AuditEvent
