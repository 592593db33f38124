-- ===== src/Billing.antt =====
-- app/api/routes/billing.py: the plans of tenants, payment, and the events of the payment provider.
pub mod Plans
pub mod Events
pub mod Accounts
pub mod Refinement
pub mod Routes
pub mod Webhook
