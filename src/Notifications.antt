-- ===== src/Notifications.antt =====
-- src/notifications/: what reaches a user outside the chat, and the list of it.
pub mod Service
pub mod Digests
pub mod Pages
pub mod Reading
pub mod Pending
