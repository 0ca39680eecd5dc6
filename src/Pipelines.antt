-- ===== src/Pipelines.antt =====
-- The pipelines module: crm-backend/src/modules/pipelines.
pub mod Types
pub mod Service
