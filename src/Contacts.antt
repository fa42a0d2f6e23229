-- ===== src/Contacts.antt =====
-- The people whom a user follows: src/contacts/contacts.service.ts and src/contacts/contacts.constants.ts.
-- `remove` stands in Blocks/Service.antt, as the handlers of blocks call it.
pub mod Notes
pub mod Service
pub mod Lists
pub mod Book
