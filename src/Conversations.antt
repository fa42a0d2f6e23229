-- ===== src/Conversations.antt =====
-- src/conversations/: the conversation rows, the service and what is proved of them.
pub mod Preview
pub mod Rows
pub mod Details
pub mod Service
pub mod Unread
pub mod Pairs
pub mod Peers
pub mod Listing
pub mod Filters
pub mod Joining
pub mod Direct
