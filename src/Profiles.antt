-- ===== src/Profiles.antt =====
-- app/api/routes/profiles.py: the profiles of a tenant, their versions, and pushing profiles to devices.
pub mod Versions
pub mod Push
pub mod History
pub mod Diffs
