-- ===== src/Portal.antt =====
-- app/api/routes/portal.py: what users ask for in the self-service portal.
pub mod Catalog
pub mod Session
pub mod Software
pub mod Reviews
pub mod Approvals
pub mod Reviewed
pub mod Once
