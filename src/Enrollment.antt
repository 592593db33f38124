-- ===== src/Enrollment.antt =====
-- app/api/routes/enrollment.py: tokens for enrollment, and devices known before they enroll.
pub mod Tokens
pub mod Import
pub mod Lockout
pub mod SingleUse
pub mod Serials
