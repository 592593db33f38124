-- ===== src/Tenants.antt =====
-- app/api/routes/signup.py, tenant.py and app/services/trial_reminder.py: how a tenant begins, and reminders.
pub mod Signup
pub mod Slugs
pub mod Reminder
pub mod Settings
