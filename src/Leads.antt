-- ===== src/Leads.antt =====
-- The leads module: crm-backend/src/modules/leads.
pub mod Types
pub mod Service
