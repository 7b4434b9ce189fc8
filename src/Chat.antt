-- ===== src/Chat.antt =====
-- services/chat: the topics that a user talks about, each run as an execution of the engine.
pub mod Rows
pub mod Topics
pub mod Focus
pub mod Watcher
