-- ===== src/Admin.antt =====
-- src/admin/: moderation by the owner.
pub mod Service
pub mod Owner
