-- ===== src/Ledger.antt =====
-- Double-entry accounting: crm-backend/src/modules/ledger (ledger.repository.ts, ledger.service.ts).
-- Amounts are whole millionths of a USDC, the scale of the database's Decimal(36, 6) columns.
mod Types
pub mod Repository
pub mod Service
pub use Types.*
