-- ===== src/Groups.antt =====
-- src/groups/: the members and admins of a group.
pub mod Service
pub mod Admins
pub mod Deleting
pub mod Roles
