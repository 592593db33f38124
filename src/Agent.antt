-- ===== src/Agent.antt =====
-- app/api/routes/agent.py: the agent that runs on a device polls for script jobs and reports back.
pub mod Jobs
pub mod Delivery
