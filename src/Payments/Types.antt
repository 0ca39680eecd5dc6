-- ===== src/Payments/Types.antt =====
-- The rows of the payment rail (crm-backend/src/modules/payments/payments.repository.ts and the
-- columns it writes), its state and its errors. Times are numbers of milliseconds, amounts whole
-- millionths of a USDC.
use crm_with_blockchain_rag.Base.{Bool, List, Option, String, ℕ, ◌≡◌}
use crm_with_blockchain_rag.Prisma.{Table}
use crm_with_blockchain_rag.Ledger.{Chain, LedgerAccount, LedgerError, Books}
use crm_with_blockchain_rag.Payments.StateMachine.{PaymentStatus, TransitionError}

pub data PaymentDirection : Type 0 where
  inbound outbound : PaymentDirection

pub record Payment : Type 0 where
  pub id : String
  pub tenant_id : String
  pub idempotency_key : String
  pub status : PaymentStatus
  pub direction : PaymentDirection
  pub amount_usdc : ℕ
  pub chain : Chain
  pub wallet_id : String
  pub from_address : Option String
  pub to_address : String
  pub deal_id : Option String
  pub tx_hash : Option String
  pub block_number : Option ℕ
  pub confirmations : ℕ
  pub required_confirmations : ℕ
  pub detected_at : Option ℕ
  pub confirmed_at : Option ℕ
  pub failed_at : Option ℕ
  pub expires_at : ℕ
  pub failure_reason : Option String

pub record PaymentEvent : Type 0 where
  pub payment_id : String
  pub tenant_id : String
  pub from_status : PaymentStatus
  pub to_status : PaymentStatus
  pub event : String

-- The columns of a wallet that the rail reads.
pub record WalletRef : Type 0 where
  pub id : String
  pub tenant_id : String
  pub address : String

-- A job on the outbound webhook queue.
pub record WebhookJob : Type 0 where
  pub tenant_id : String
  pub event : String
  pub payment_id : String
  pub amount_usdc : ℕ

-- The tables behind the rail, with their primary keys, and the queue.
pub record Client : Type 1 where
  pub payment : Table Payment
  pub account : Table LedgerAccount
  pub wallet : Table WalletRef
  -- Whether the webhook queue, with the jobs that it holds, takes a job.
  pub takes : List WebhookJob → WebhookJob → Bool
  pub payment_keyed : (p : Payment) → payment.key p ≡ p.id
  pub account_keyed : (a : LedgerAccount) → account.key a ≡ a.id

-- The state: three tables, the audit events and the queued webhooks, the newest first.
pub record Db (c : Client) : Type 0 where
  pub payments : c.payment.State
  pub wallets : c.wallet.State
  pub books : Books c.account
  pub events : List PaymentEvent
  pub webhooks : List WebhookJob

pub data PaymentError : Type 0 where
  not_found conflict : PaymentError
  transition_refused : TransitionError → PaymentError
  -- An update of a row that is not there, a violated constraint, a commit that failed.
  record_missing constraint_violation commit_failed : PaymentError
  ledger_failed : LedgerError → PaymentError
