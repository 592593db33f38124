-- ===== src/Auth.antt =====
-- Authentication: app/core/security.py, app/core/deps.py and app/api/routes/auth.py.
pub mod Tokens
pub mod Session
pub mod Login
pub mod Reset
pub mod Revocation
pub mod SecondFactor
pub mod SingleUse
