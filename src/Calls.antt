-- ===== src/Calls.antt =====
-- src/calls/: the rows of calls, the service and what is proved of them.
pub mod Rows
pub mod Lifecycle
pub mod Frame
pub mod Tracks
pub mod Handlers
pub mod Start
pub mod Service
pub mod Run
pub mod Listing
