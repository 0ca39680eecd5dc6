-- ===== src/Automation.antt =====
-- The automation engine (crm-backend/src/modules/automation).
pub mod Types
pub mod Conditions
pub mod Actions
pub mod Service
