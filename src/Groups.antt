-- ===== src/Groups.antt =====
-- app/api/routes/groups.py: groups of devices and actions on them.
pub mod Handlers
pub mod Membership
pub mod Editing
