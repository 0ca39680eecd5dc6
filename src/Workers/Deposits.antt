-- ===== src/Workers/Deposits.antt =====
-- crm-backend/src/jobs/workers/blockchain-events.worker.ts: `process`, for one transfer event. A worker
-- runs outside any tenant context. Raw amounts are numbers of millionths of a USDC.
pub mod Outcomes
use crm_with_blockchain_rag.Base.{
  Bool, List, Option, Result, String, [], err, if◌then◌else◌, ltb, none, ok, some, ℕ, ◌+++◌, ◌+◌,
  ◌===◌, ◌∷◌,
}
use crm_with_blockchain_rag.Tenancy.Queries.{Env}
use crm_with_blockchain_rag.Ledger.{Chain}
use crm_with_blockchain_rag.Payments.StateMachine.{failed}
use crm_with_blockchain_rag.Payments.Types.{Payment, Client, Db, PaymentError, record_missing}
use crm_with_blockchain_rag.Payments.Repository.{
  no_updates, Updates, find_pending_by_address, transition,
}
use crm_with_blockchain_rag.Payments.Service.{TxDetected, handle_tx_detected}

-- `BlockchainTransferEvent`
pub record BlockchainTransferEvent : Type 0 where
  pub chain : Chain
  pub tx_hash : String
  pub block_number : ℕ
  pub from_address : String
  pub to_address : String
  pub amount_raw : ℕ

-- The states of `BlockchainTransaction` that the workers write.
pub data TxStatus : Type 0 where
  submitted tx_confirmed tx_failed : TxStatus

-- A row of `BlockchainTransaction`.
pub record ChainTransaction : Type 0 where
  pub tenant_id : String
  pub payment_id : String
  pub tx_hash : String
  pub chain : Chain
  pub status : TxStatus
  pub from_address : String
  pub to_address : String
  pub amount_raw : ℕ
  pub block_number : ℕ
  pub confirmations : ℕ
  pub first_seen_at : ℕ
  pub confirmed_at : Option ℕ

-- A job that a worker asks the confirmation queue for.
pub record PollJob : Type 0 where
  pub payment_id : String
  pub tenant_id : String
  pub tx_hash : String
  pub chain : Chain
  pub target_confirmations : ℕ
  pub delay : ℕ

pub record WorkerDb (c : Client) : Type 0 where
  pub db : Db c
  pub transactions : List ChainTransaction
  pub polls : List PollJob

abbrev pub transaction_of : Env → Payment → BlockchainTransferEvent → ChainTransaction
transaction_of env p e = record {
  tenant_id = p.tenant_id;
  payment_id = p.id;
  tx_hash = e.tx_hash;
  chain = e.chain;
  status = submitted;
  from_address = e.from_address;
  to_address = e.to_address;
  amount_raw = e.amount_raw;
  block_number = e.block_number;
  confirmations = 0;
  first_seen_at = env.now;
  confirmed_at = none;
}

-- `upsert` on the hash, with an update that changes nothing.
pub upsert_transaction : ChainTransaction → List ChainTransaction → List ChainTransaction
upsert_transaction x [] = x ∷ []
upsert_transaction x (y ∷ ys) =
    if y.tx_hash === x.tx_hash then y ∷ ys else y ∷ upsert_transaction x ys

-- `BigInt(event.amountRaw) - BigInt(expectedRaw) < -1n`
abbrev pub underpaid : ℕ → ℕ → Bool
underpaid expected received = ltb (received + 1) expected

abbrev pub detected : Payment → BlockchainTransferEvent → TxDetected
detected p e = record {
  payment_id = p.id;
  tx_hash = e.tx_hash;
  from_address = e.from_address;
  block_number = e.block_number;
}

-- `text_of` prints a whole number; `same` compares addresses without regard to case, as the database
-- does.
module _ (c : Client) (text_of : ℕ → String) (same : String → String → Bool) where
  abbrev pub underpayment : Env → Payment → BlockchainTransferEvent → Updates
  underpayment env p e = record no_updates {
    failed_at = some env.now;
    failure_reason = some (
        "Underpayment: expected "
        +++ text_of p.amount_usdc
        +++ ", received "
        +++ text_of e.amount_raw);
  }

  unfoldable pub process :
      Env → BlockchainTransferEvent → WorkerDb c → Result PaymentError (Unit {0}) × WorkerDb c
  unfolding upsert_transaction
  process env e s = elim (find_pending_by_address c env same e.to_address e.chain s.db) [
    | none ↦ (ok tt, s)
    | some p ↦
        let s₁ : WorkerDb c = record s {
          transactions = upsert_transaction (transaction_of env p e) s.transactions;
        } in
        let (r, db) = handle_tx_detected c env (detected p e) s.db in
        if underpaid p.amount_usdc e.amount_raw
        then elim (transition c env p.id failed (underpayment env p e) s.db) [
          | none ↦ (err record_missing, s₁)
          | some (p', failed_db) ↦ (ok tt, record s₁ { db = failed_db })
        ]
        else elim r [
          | err x ↦ (err x, record s₁ { db = db })
          | ok _ ↦ (
            ok tt,
            record s₁ {
              db = db;
              polls =
                  record {
                    payment_id = p.id;
                    tenant_id = p.tenant_id;
                    tx_hash = e.tx_hash;
                    chain = e.chain;
                    target_confirmations = p.required_confirmations;
                    delay = 15_000;
                  }
                  ∷ s₁.polls;
            },
          )
        ]
  ]
