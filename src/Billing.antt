-- ===== src/Billing.antt =====
-- crm-backend/src/modules/billing: the payments in crypto currency and the webhooks of Stripe
-- and PayPal.
pub mod Types
pub mod Service
pub mod Crypto
pub mod Rows
pub mod Stripe
pub mod Paypal
