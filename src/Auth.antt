-- ===== src/Auth.antt =====
-- The sign-in of users (crm-backend/src/modules/auth).
pub mod Types
pub mod Service
