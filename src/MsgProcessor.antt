-- ===== src/MsgProcessor.antt =====
-- pkg/msgprocessor: the options of a message and the names of conversations.
pub mod Options
pub mod Conversation
