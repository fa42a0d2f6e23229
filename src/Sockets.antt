-- ===== src/Sockets.antt =====
-- The sockets: src/messages/messages.gateway.ts, src/calls/calls.gateway.ts and
-- src/calls/calls.realtime.ts, with the adapter that signs a socket in.
pub mod State
pub mod Packets
pub mod Session
pub mod Chat
pub mod CallRooms
pub mod Run
pub mod Kept
pub mod Counts
pub mod Grace
pub mod Sound
pub mod Counted
pub mod Reach
pub mod InThread
