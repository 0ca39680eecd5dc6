-- ===== src/Tests.antt =====
-- The theorems at concrete inputs, one module to a part of the program.
mod Rail
mod Ledger
mod Payments
mod Tenancy
mod Rbac
mod Workers
mod Wallets
mod Deals
mod Scoring
mod Leads
mod Tickets
mod Pipelines
mod Automation
mod Auth
mod Billing
