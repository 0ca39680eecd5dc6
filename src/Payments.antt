-- ===== src/Payments.antt =====
-- The payment rail: crm-backend/src/modules/payments.
pub mod StateMachine
pub mod Types
pub mod Repository
pub mod Service
