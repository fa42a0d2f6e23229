-- ===== src/World.antt =====
-- The state that the services share, and how a handler runs on it. A handler is an `Action`: it reads
-- and writes the `World` and returns or throws; what was written before a throw stays written. A
-- handler runs from start to end with no other one in between, at the one instant `now`.
pub mod Ttl
pub mod State
pub mod Effects
pub mod Keeps
pub mod Hoare
unfoldable pub use State.*
