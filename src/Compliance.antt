-- ===== src/Compliance.antt =====
-- app/services/compliance.py and app/api/routes/compliance.py: the compliance engine and its routes.
pub mod Templates
pub mod Evaluation
pub mod Verdicts
pub mod Device
pub mod Standards
pub mod Seed
pub mod Seeded
pub mod Results
pub mod Policies
