-- ===== src/Messages.antt =====
-- src/messages/: message texts, reactions, receipts, the service and what is proved of them.
pub mod Html
pub mod Labels
pub mod Reactions
pub mod Receipts
pub mod Rows
pub mod Service
pub mod Clean
pub mod Progress
pub mod Toggling
