-- ===== src/Blocks.antt =====
-- src/blocks/: who has blocked whom, and what a block does to contacts and chats.
pub mod Queries
pub mod Restricted
pub mod Service
pub mod Coherence
