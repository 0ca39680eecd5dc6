-- ===== src/Workers/Confirmations.antt =====
-- crm-backend/src/jobs/workers/transaction-confirmation.worker.ts: `process`, for one poll. What the
-- chain answers is a parameter: none where the provider throws. A receipt is of no block after the
-- current one.
pub mod Polls
use crm_with_blockchain_rag.Base.{
  Bool, List, Option, Result, String, err, find, if◌then◌else◌, leb, ltb, map, none, ok, some, ℕ,
  ◌*◌, ◌+◌, ◌-◌, ◌===◌, ◌==◌, ◌∷◌,
}
use crm_with_blockchain_rag.Tenancy.Queries.{Env}
use crm_with_blockchain_rag.Payments.StateMachine.{confirming, failed}
use crm_with_blockchain_rag.Payments.Types.{Payment, Client, PaymentError, record_missing}
use crm_with_blockchain_rag.Payments.Repository.{
  no_updates, Updates, find_all_confirming, transition, append_event,
}
use crm_with_blockchain_rag.Payments.Service.{handle_confirmation_update}
use crm_with_blockchain_rag.Workers.Deposits.{
  ChainTransaction, TxStatus, submitted, tx_confirmed, tx_failed, PollJob, WorkerDb,
}

-- The receipt of a transaction.
pub record Receipt : Type 0 where
  pub reverted : Bool
  pub block_number : ℕ

-- The receipt, where the chain has one, and the current block.
pub record Answer : Type 0 where
  pub receipt : Option Receipt
  pub current_block : ℕ

pub data PollError : Type 0 where
  provider_failed : PollError
  payment_failed : PaymentError → PollError

abbrev pub max_wait_blocks : ℕ
max_wait_blocks = 300

-- `POLL_DELAY_MS`; a ratio to zero is no number or infinite.
unfoldable pub poll_delay : ℕ → ℕ → ℕ
poll_delay confirmations target =
    if target == 0
    then (if confirmations == 0 then 30_000 else 10_000)
    else if leb (8 * target) (10 * confirmations)
    then 10_000
    else if leb target (2 * confirmations)
    then 15_000
    else 30_000

-- `updateMany` on the hash.
unfoldable pub update_transactions :
    String → (ChainTransaction → ChainTransaction) → List ChainTransaction → List ChainTransaction
update_transactions hash f l = map (λ x. if x.tx_hash === hash then f x else x) l

-- The columns that a poll sets.
abbrev pub counted : Env → ℕ → ℕ → ChainTransaction → ChainTransaction
counted env confirmations target x = record x {
  confirmations = confirmations;
  status = if leb target confirmations then tx_confirmed else submitted;
  confirmed_at = if leb target confirmations then some env.now else x.confirmed_at;
}

abbrev pub blocks_since_seen : Payment → ℕ → ℕ
blocks_since_seen p current_block = elim (p.block_number) [
  | none ↦ 0
  | some n ↦ if n == 0 then 0 else current_block - n
]

abbrev pub failure : Env → String → Updates
failure env reason = record no_updates { failed_at = some env.now; failure_reason = some reason }

module _ (c : Client) where
  abbrev pub PollOutcome : Type 0
  PollOutcome = Result PollError (Unit {0}) × WorkerDb c

  unfoldable pub fail_payment : Env → String → String → String → String → WorkerDb c → PollOutcome
  unfolding update_transactions
  fail_payment env payment_id tenant_id tx_hash reason s =
      let s₁ : WorkerDb c = record s {
        transactions =
            update_transactions tx_hash (λ x. record x { status = tx_failed }) s.transactions;
      } in
      elim (transition c env payment_id failed (failure env reason) s.db) [
        | none ↦ (err (payment_failed record_missing), s₁)
        | some (p, db) ↦ (
          ok tt,
          record s₁ {
            db = append_event c env payment_id tenant_id confirming failed "tx_failed" db;
          },
        )
      ]

  unfoldable pub schedule_recheck : PollJob → ℕ → ℕ → WorkerDb c → WorkerDb c
  schedule_recheck job target confirmations s = record s {
    polls = record job { delay = poll_delay confirmations target } ∷ s.polls;
  }

  -- The last part of `process`: the transaction is in a block.
  unfoldable pub confirm : Env → Receipt → ℕ → PollJob → WorkerDb c → PollOutcome
  confirm env receipt current_block job s =
      let confirmations = current_block + 1 - receipt.block_number in
      let s₁ : WorkerDb c = record s {
        transactions =
            update_transactions job.tx_hash (counted env confirmations job.target_confirmations)
              s.transactions;
      } in
      let (r, db) = handle_confirmation_update c env job.payment_id confirmations s.db in
      let s₂ : WorkerDb c = record s₁ { db = db } in
      elim r [
        | err e ↦ (err (payment_failed e), s₂)
        | ok _ ↦
            if leb job.target_confirmations confirmations
            then (ok tt, s₂)
            else (ok tt, schedule_recheck job job.target_confirmations confirmations s₂)
      ]

  -- What a poll does about a confirming payment, by the answer of the chain.
  unfoldable pub poll_payment : Env → Answer → Payment → PollJob → WorkerDb c → PollOutcome
  poll_payment env answer p job s = elim (answer.receipt) [
    | none ↦
        if ltb max_wait_blocks (blocks_since_seen p answer.current_block)
        then fail_payment env job.payment_id p.tenant_id job.tx_hash
            "Transaction dropped from mempool" s
        else (ok tt, schedule_recheck job job.target_confirmations 0 s)
    | some receipt ↦
        if receipt.reverted
        then fail_payment env job.payment_id p.tenant_id job.tx_hash "Transaction reverted on-chain"
            s
        else confirm env receipt answer.current_block job s
  ]

  -- `process`
  unfoldable pub poll : Env → Option Answer → PollJob → WorkerDb c → PollOutcome
  poll env answer job s =
      elim (find (λ p. p.id === job.payment_id) (find_all_confirming c env s.db)) [
        | none ↦ (ok tt, s)
        | some p ↦ elim answer [
          | none ↦ (err provider_failed, s)
          | some a ↦ poll_payment env a p job s
        ]
      ]
