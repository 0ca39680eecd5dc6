-- ===== src/Tests/Workers.antt =====
-- crm-backend/src/jobs/workers at concrete inputs.
use crm_with_blockchain_rag.Base.{
  Bool, String, [], arith, eq_iff, false, find, none, ok, refl, some, true, ℕ, ◌+◌, ◌===◌, ◌∷◌, ◌≡◌,
  ◌≢◌, ◌≤◌,
}
use crm_with_blockchain_rag.Ledger.{polygon}
use crm_with_blockchain_rag.Tenancy.{all_operations, current_tenant}
use crm_with_blockchain_rag.Payments.StateMachine.{pending, failed}
use crm_with_blockchain_rag.Payments.Repository.{updated, find_pending_by_address}
use crm_with_blockchain_rag.Payments.Repository.Transition.{payment_at}
use crm_with_blockchain_rag.Workers.Deposits.{
  BlockchainTransferEvent, WorkerDb, underpayment, process,
}
use crm_with_blockchain_rag.Workers.Deposits.Outcomes.{seen, process_covered, process_underpaid}
use crm_with_blockchain_rag.Payments.Repository.{
  find_all_confirming, create, find_by_idempotency_key,
}
use crm_with_blockchain_rag.Payments.Service.{find_wallet, create_payment_intent}
use crm_with_blockchain_rag.Payments.Service.Changes.{Changes, MayMove}
use crm_with_blockchain_rag.Payments.StateMachine.{confirming}
use crm_with_blockchain_rag.Workers.Deposits.{PollJob}
use crm_with_blockchain_rag.Workers.Confirmations.{Receipt, PollOutcome, poll}
use crm_with_blockchain_rag.Workers.Confirmations.Polls.{poll_idle, poll-Changes}
use crm_with_blockchain_rag.Workers.Jobs.{
  CreateIntentJobPayload, create_intent, JobDb, handle_create_intent, process_job,
}
use crm_with_blockchain_rag.Workers.Jobs.Redelivery.{process_job-again}
use crm_with_blockchain_rag.Tests.Wallets.{tables, start as custody_start}
use crm_with_blockchain_rag.Tests.Rail.{rail, db, worker, request, payment_row}

-- Numbers as a text that leaves their digits out, and addresses compared as they are.
abbrev no_digits : ℕ → String
no_digits n = "n"

abbrev same : String → String → Bool
same a b = a === b

abbrev deposit : ℕ → BlockchainTransferEvent
deposit n = record {
  chain = polygon;
  tx_hash = "0xfeed";
  block_number = 77;
  from_address = "0xee";
  to_address = "0xab";
  amount_raw = n;
}

abbrev start : WorkerDb rail
start = record { db = db; transactions = []; polls = [] }

outside : current_tenant worker.store ≡ none
unfolding current_tenant
outside = refl

matched :
    find_pending_by_address rail worker same "0xab" polygon db ≡ some (payment_row "p1" pending 50)
unfolding find_pending_by_address all_operations current_tenant
matched = refl

abbrev poll_job : PollJob
poll_job = record {
  payment_id = "p2";
  tenant_id = "t1";
  tx_hash = "0xfeed";
  chain = polygon;
  target_confirmations = 3;
  delay = 0;
}

process_covered_example :
    let (r, s') = process rail no_digits same worker (deposit 999_999_999) start in
    (r ≡ ok tt)
    × (s'.db ≡ db)
    × (seen "0xfeed" s'.transactions ≡ true)
    × (s'.polls ≡ record poll_job { payment_id = "p1"; delay = 15_000 } ∷ [])
process_covered_example =
    process_covered rail no_digits same worker (deposit 999_999_999) start
      (payment_row "p1" pending 50) outside (λ id p at e. ground (arith, eq_iff "t1" "")) matched
      (omega arith)

process_underpaid_example :
    let (r, s') = process rail no_digits same worker (deposit 999_999_998) start in
    (r ≡ ok tt)
    × (payment_at rail "p1" s'.db
        ≡ some (
            updated failed
              (underpayment rail no_digits same worker
                (payment_row "p1" pending 50)
                (deposit 999_999_998))
              (payment_row "p1" pending 50)))
    × ((j : String) → ◌≢◌ {A = String} "p1" j → payment_at rail j s'.db ≡ payment_at rail j db)
    × (s'.db.events ≡ db.events)
    × (seen "0xfeed" s'.transactions ≡ true)
    × (s'.polls ≡ [])
process_underpaid_example =
    process_underpaid rail no_digits same worker (deposit 999_999_998) start
      (payment_row "p1" pending 50) outside matched (omega arith)

abbrev in_block : Receipt
in_block = record { reverted = false; block_number = 77 }

-- The block of the receipt, and two more on top of it.
abbrev polled : PollOutcome rail
polled =
    poll rail worker (some (record { receipt = some in_block; current_block = 79 })) poll_job start

-- The payment is among those that are polled for.
still_confirming :
    find (λ p. p.id === "p2") (find_all_confirming rail worker db)
    ≡ some (payment_row "p2" confirming 50)
unfolding find_all_confirming all_operations current_tenant
still_confirming = refl

poll_idle_example :
    (polled.1.db ≡ db) × (3 + 77 ≤ 79 + 1 → (polled.0 ≡ ok tt) × (polled.1.polls ≡ []))
poll_idle_example =
    poll_idle rail worker in_block 79 poll_job start outside
      (λ id p at e. ground (arith, eq_iff "t1" "")) refl

poll-Changes_example :
    Changes rail MayMove db.payments
      (poll rail worker
        (some (record { receipt = none; current_block = 900 }))
        poll_job
        start).1.db.payments
poll-Changes_example =
    poll-Changes rail worker (some (record { receipt = none; current_block = 900 })) poll_job start

abbrev intent_job : CreateIntentJobPayload
intent_job = record {
  tenant_id = "t1";
  wallet_id = "w1";
  amount_usdc = 2_500_000;
  chain = polygon;
  idempotency_key = "deal-d1";
  deal_id = some "d1";
}

abbrev jobs : JobDb rail tables
jobs = record { rail = db; custody = custody_start }

abbrev jobs_after : JobDb rail tables
jobs_after = (process_job rail tables worker (create_intent intent_job) jobs).1

intent_made : process_job rail tables worker (create_intent intent_job) jobs ≡ (ok tt, jobs_after)
unfolding process_job handle_create_intent create_payment_intent find_by_idempotency_key find_wallet
    create all_operations current_tenant
intent_made = refl

process_job-again_example :
    process_job rail tables request (create_intent intent_job) jobs_after ≡ (ok tt, jobs_after)
process_job-again_example =
    process_job-again rail tables worker request intent_job jobs jobs_after outside intent_made
