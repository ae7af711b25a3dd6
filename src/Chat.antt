-- ===== src/Chat.antt =====
-- The conversation: messages and the actor that owns them (funera_core/src/chat/).
pub mod Message
pub mod Session
