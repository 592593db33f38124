-- ===== src/Tests.antt =====
-- The theorems at concrete inputs: one office with two devices.
mod Samples
mod Apple
mod Access
mod Policies
mod Tenants
mod Inventory
