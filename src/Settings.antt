-- ===== src/Settings.antt =====
-- src/settings/: how stored settings and a patch become settings, and the service.
pub mod Merge
pub mod Service
pub mod Laws
pub mod Sounds
