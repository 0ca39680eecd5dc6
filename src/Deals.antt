-- ===== src/Deals.antt =====
-- The deals module: crm-backend/src/modules/deals.
pub mod Types
pub mod Service
pub mod Board
