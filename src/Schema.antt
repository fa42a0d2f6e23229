-- ===== src/Schema.antt =====
-- The documents of the database (src/*/*.schema.ts), one module for each collection. An ObjectId is
-- the number that its hexadecimal string spells, a date the number of its milliseconds.
pub mod Settings
pub mod User
pub mod Session
pub mod Notification
pub mod Conversation
pub mod Message
pub mod Call
pub mod Block
