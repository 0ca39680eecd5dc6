-- ===== src/Workers/Jobs.antt =====
-- crm-backend/src/jobs/workers/payment-processing.worker.ts. The payments service and the wallets
-- service keep states of their own; the columns of a wallet that the first reads are not among those
-- that the second writes.
pub mod Redelivery
use crm_with_blockchain_rag.Base.{Option, Result, String, err, none, ok, ℕ}
use crm_with_blockchain_rag.Tenancy.Queries.{Env}
use crm_with_blockchain_rag.Ledger.{Chain}
use crm_with_blockchain_rag.Payments.Types.{Client, Db, PaymentError}
use crm_with_blockchain_rag.Payments.Service.{
  CreatePaymentDto, create_payment_intent, expire_stale_pending_payments,
}
use crm_with_blockchain_rag.Wallets.Types.{WalletClient, WalletDb, WalletError}
use crm_with_blockchain_rag.Wallets.Service.{sync_balance}

-- `CreateIntentJobPayload`, with the amount read as a decimal.
pub record CreateIntentJobPayload : Type 0 where
  pub tenant_id : String
  pub wallet_id : String
  pub amount_usdc : ℕ
  pub chain : Chain
  pub idempotency_key : String
  pub deal_id : Option String

-- `BalanceSyncJobPayload`
pub record BalanceSyncJobPayload : Type 0 where
  pub tenant_id : String
  pub wallet_id : String

-- A job by its name.
pub data PaymentJob : Type 0 where
  create_intent : CreateIntentJobPayload → PaymentJob
  balance_sync : BalanceSyncJobPayload → PaymentJob
  expire_sweep unknown_job : PaymentJob

pub data JobError : Type 0 where
  of_payments : PaymentError → JobError
  of_wallets : WalletError → JobError

pub record JobDb (c : Client) (w : WalletClient) : Type 0 where
  pub rail : Db c
  pub custody : WalletDb w

-- The `CreatePaymentDto` of a job, which leaves the confirmations open.
abbrev pub dto_of : CreateIntentJobPayload → CreatePaymentDto
dto_of job = record {
  idempotency_key = job.idempotency_key;
  amount_usdc = job.amount_usdc;
  chain = job.chain;
  wallet_id = job.wallet_id;
  deal_id = job.deal_id;
  required_confirmations = none;
}

module _ (c : Client) (w : WalletClient) where
  abbrev pub JobOutcome : Type 0
  JobOutcome = Result JobError (Unit {0}) × JobDb c w

  unfoldable pub handle_create_intent : Env → CreateIntentJobPayload → JobDb c w → JobOutcome
  handle_create_intent env job s =
      let (r, rail) = create_payment_intent c env job.tenant_id (dto_of job) s.rail in
      (elim r [ err e ↦ err (of_payments e) | ok p ↦ ok tt ], record s { rail = rail })

  unfoldable pub handle_expire_sweep : Env → JobDb c w → JobOutcome
  handle_expire_sweep env s =
      let (r, rail) = expire_stale_pending_payments c env s.rail in
      (elim r [ err e ↦ err (of_payments e) | ok n ↦ ok tt ], record s { rail = rail })

  unfoldable pub handle_balance_sync : Env → BalanceSyncJobPayload → JobDb c w → JobOutcome
  handle_balance_sync env job s =
      let (r, custody) = sync_balance w env job.wallet_id job.tenant_id s.custody in
      (elim r [ err e ↦ err (of_wallets e) | ok n ↦ ok tt ], record s { custody = custody })

  -- The method `process`.
  unfoldable pub process_job : Env → PaymentJob → JobDb c w → JobOutcome
  process_job env (create_intent job) s = handle_create_intent env job s
  process_job env expire_sweep s = handle_expire_sweep env s
  process_job env (balance_sync job) s = handle_balance_sync env job s
  process_job env unknown_job s = (ok tt, s)
