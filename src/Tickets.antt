-- ===== src/Tickets.antt =====
-- The tickets module: crm-backend/src/modules/tickets.
pub mod Types
pub mod Service
