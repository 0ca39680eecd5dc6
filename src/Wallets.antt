-- ===== src/Wallets.antt =====
-- The wallets module: crm-backend/src/modules/wallets.
pub mod Types
pub mod Service
