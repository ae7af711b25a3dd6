-- ===== src/Tool.antt =====
-- Tools as the core sees them (funera_core/src/re_act/tool.rs): the errors of a call, a tool, and
-- the registry of tools by name.
pub mod Error
pub mod Registry
