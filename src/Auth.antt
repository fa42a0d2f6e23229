-- ===== src/Auth.antt =====
-- src/auth/, src/sessions/ and the keys of src/common/redis/redis.service.ts on which they stand.
pub mod Devices
pub mod Sessions
pub mod Codes
pub mod Index
pub mod Service
pub mod OAuth
pub mod Guard
pub mod Revoked
pub mod Lifetime
pub mod Banned
pub mod Throttle
pub mod Reach
pub mod Reset
