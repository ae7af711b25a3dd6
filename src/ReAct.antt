-- ===== src/ReAct.antt =====
-- The ReAct loop (funera_core/src/re_act.rs).
pub mod Stream
pub mod Finish
pub mod Loop
pub mod Executor
