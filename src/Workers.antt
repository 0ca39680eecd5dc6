-- ===== src/Workers.antt =====
-- The workers of the payment rail: crm-backend/src/jobs/workers.
pub mod Deposits
pub mod Confirmations
pub mod Jobs
