-- ===== src/Tests.antt =====
-- The properties at concrete inputs.
mod Calls
mod Chats
mod Accounts
mod Sockets
