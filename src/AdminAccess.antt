-- ===== src/AdminAccess.antt =====
-- Temporary admin rights: app/api/routes/admin_access.py and the worker app/services/auto_revoke.py.
pub mod Requests
pub mod AutoRevoke
pub mod Grants
pub mod Lifecycle
pub mod Expiry
pub mod Elevation
