-- ===== src/Ledger/Service.antt =====
-- crm-backend/src/modules/ledger/ledger.service.ts
pub mod Provisioning
pub mod Posting
pub mod Settlement
pub mod Entries
use crm_with_blockchain_rag.Base.{
  Option, Result, String, err, if◌then◌else◌, ltb, none, ok, some, suc, zero, ℕ, ◌*◌, ◌+++◌, ◌/◌,
}
use crm_with_blockchain_rag.Prisma.{Table}
use crm_with_blockchain_rag.Tenancy.Queries.{Env}
use crm_with_blockchain_rag.Ledger.Types.{
  Chain, polygon, base, ethereum, asset, liability, revenue, LedgerAccount, LedgerEntry, Books,
  LedgerError, out_of_fuel,
}
use crm_with_blockchain_rag.Ledger.Repository.{
  AccountInput, find_account, upsert_account, write_entry,
}

abbrev pub platform_fee_bps : ℕ
platform_fee_bps = 50

-- `chain.toUpperCase()`; the chains are spelled in capitals.
abbrev pub chain_suffix : Chain → String
chain_suffix polygon = "POLYGON"
chain_suffix base = "BASE"
chain_suffix ethereum = "ETHEREUM"

abbrev pub asset_code : Chain → String
asset_code chain = "1010-" +++ chain_suffix chain

abbrev pub liability_code : Chain → String
liability_code chain = "2010-" +++ chain_suffix chain

abbrev pub revenue_code : Chain → String
revenue_code chain = "4010-" +++ chain_suffix chain

-- The three accounts of a wallet, as `ensureWalletAccounts` describes them.
abbrev pub asset_input : String → String → Chain → AccountInput
asset_input tenant_id wallet_id chain = record {
  tenant_id = tenant_id;
  wallet_id = some wallet_id;
  type = asset;
  name = "USDC Asset [" +++ chain_suffix chain +++ "]";
  code = asset_code chain;
  chain = chain;
}

abbrev pub liability_input : String → Chain → AccountInput
liability_input tenant_id chain = record {
  tenant_id = tenant_id;
  wallet_id = none;
  type = liability;
  name = "User Liability [" +++ chain_suffix chain +++ "]";
  code = liability_code chain;
  chain = chain;
}

abbrev pub revenue_input : String → Chain → AccountInput
revenue_input tenant_id chain = record {
  tenant_id = tenant_id;
  wallet_id = none;
  type = revenue;
  name = "Platform Revenue [" +++ chain_suffix chain +++ "]";
  code = revenue_code chain;
  chain = chain;
}

pub record SettlePaymentInput : Type 0 where
  pub tenant_id : String
  pub wallet_id : String
  pub payment_id : String
  pub amount_usdc : ℕ
  pub chain : Chain

-- 0.5% rounded down to a millionth.
unfoldable pub fee_of : ℕ → ℕ
fee_of amount = amount * platform_fee_bps / 10_000

-- The three accounts that a settlement posts to.
pub record Triple : Type 0 where
  pub asset_account : LedgerAccount
  pub liability_account : LedgerAccount
  pub revenue_account : LedgerAccount

-- The entry of the gross inflow, and that of the fee.
abbrev pub gross_entry : SettlePaymentInput → Triple → LedgerEntry
gross_entry input t = record {
  tenant_id = input.tenant_id;
  debit_account_id = t.asset_account.id;
  credit_account_id = t.liability_account.id;
  amount = input.amount_usdc;
  payment_id = input.payment_id;
  reference_type = "payment";
  reference_id = input.payment_id;
  description = "USDC inbound payment settled";
}

abbrev pub fee_entry : SettlePaymentInput → Triple → LedgerEntry
fee_entry input t = record {
  tenant_id = input.tenant_id;
  debit_account_id = t.liability_account.id;
  credit_account_id = t.revenue_account.id;
  amount = fee_of input.amount_usdc;
  payment_id = input.payment_id;
  reference_type = "fee";
  reference_id = input.payment_id;
  description = "Platform fee (50bps)";
}

-- The rejection of the first of three calls that failed, as `Promise.all` reports it.
abbrev pub all_of :
    {A : Type 0}
    → Result LedgerError A
    → Result LedgerError A
    → Result LedgerError A
    → Result LedgerError (Unit {0})
all_of (err e) _ _ = err e
all_of (ok _) (err e) _ = err e
all_of (ok _) (ok _) (err e) = err e
all_of (ok _) (ok _) (ok _) = ok tt

module _ (account : Table LedgerAccount) where
  -- All three upserts run, also where one fails.
  unfoldable pub ensure_wallet_accounts :
      String → String → Chain → Books account → Result LedgerError (Unit {0}) × Books account
  ensure_wallet_accounts tenant_id wallet_id chain s =
      let (a, s₁) = upsert_account account (asset_input tenant_id wallet_id chain) s in
      let (l, s₂) = upsert_account account (liability_input tenant_id chain) s₁ in
      let (r, s₃) = upsert_account account (revenue_input tenant_id chain) s₂ in (all_of a l r, s₃)

  -- The lookups at the head of `settlePayment`; `none` where one of the accounts is missing.
  unfoldable pub find_accounts : String → Chain → Books account → Option Triple
  find_accounts tenant_id chain s = elim (find_account account tenant_id (asset_code chain) s) [
    | none ↦ none
    | some a ↦ elim (find_account account tenant_id (liability_code chain) s) [
      | none ↦ none
      | some l ↦ elim (find_account account tenant_id (revenue_code chain) s) [
        | none ↦ none
        | some r ↦ some (record { asset_account = a; liability_account = l; revenue_account = r })
      ]
    ]
  ]

  -- The body of the transaction.
  unfoldable pub post_entries : Env → SettlePaymentInput → Triple → Books account → Books account
  post_entries env input t s =
      let s₁ = write_entry account env (gross_entry input t) s in
      if ltb 0 (fee_of input.amount_usdc)
      then write_entry account env (fee_entry input t) s₁
      else s₁

  -- `settlePayment`, which calls itself after it has created missing accounts; the number bounds
  -- the calls.
  unfoldable pub settle_payment :
      Env → ℕ → SettlePaymentInput → Books account → Result LedgerError (Unit {0}) × Books account
  settle_payment env zero input s = (err out_of_fuel, s)
  settle_payment env (suc n) input s =
      let (r, s') = ensure_wallet_accounts input.tenant_id input.wallet_id input.chain s in
      let again = settle_payment env n input s' in
      elim (find_accounts input.tenant_id input.chain s) [
        | some t ↦ (ok tt, post_entries env input t s)
        | none ↦ elim r [ err e ↦ (err e, s') | ok _ ↦ again ]
      ]
