-- ===== src/Devices.antt =====
-- app/api/routes/devices.py and patch.py: the devices of a tenant and their updates.
pub mod Handlers
pub mod Bulk
pub mod Deletion
pub mod Patches
