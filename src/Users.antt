-- ===== src/Users.antt =====
-- app/api/routes/users.py: the administrators of a tenant.
pub mod Handlers
