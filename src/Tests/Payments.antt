-- ===== src/Tests/Payments.antt =====
-- crm-backend/src/modules/payments at concrete inputs.
use crm_with_blockchain_rag.Base.{
  All, String, [], arith, eq_iff, err, false, inr, length, map, none, ok, push_all, refl, some, ℕ,
  ◌↔◌, ◌≡◌, ◌≢◌, ◌≤◌, ◌⊎◌,
}
use crm_with_blockchain_rag.Tenancy.Queries.{Env}
use crm_with_blockchain_rag.Tenancy.{current_tenant, all_operations}
use crm_with_blockchain_rag.Ledger.{polygon}
use crm_with_blockchain_rag.Payments.StateMachine.{
  pending, completed, refunded, assert_transition, confirming,
}
use crm_with_blockchain_rag.Payments.StateMachine.Lifecycle.{
  Run, stop, move, detected, settled, returned, Move, assert_transition_iff, Run-le, refund_path,
}
use crm_with_blockchain_rag.Payments.Types.{Payment, Db, conflict, commit_failed}
use crm_with_blockchain_rag.Payments.Repository.{
  create, find_by_id, find_by_idempotency_key, find_expired_pending, transition,
}
use crm_with_blockchain_rag.Payments.Service.Settling.{settle_payment_twice}
use crm_with_blockchain_rag.Ledger.Service as Ledger
use crm_with_blockchain_rag.Ledger.Service.{Triple, find_accounts, post_entries}
use crm_with_blockchain_rag.Ledger.Service.Entries.{settled_entries}
use crm_with_blockchain_rag.Ledger.Repository.{find_account, write_entry}
use crm_with_blockchain_rag.Payments.Service.{
  settlement_input, settle_payment, TxDetected, CreatePaymentDto, handle_tx_detected,
  handle_confirmation_update, handle_refund, create_payment_intent, find_wallet,
  expire_stale_pending_payments,
}
use crm_with_blockchain_rag.Payments.Service.Changes.{
  Changes, MayMove, handle_confirmation_update-Changes, handle_refund-Changes,
}
use crm_with_blockchain_rag.Payments.Service.Detection.{worker_calls_idle}
use crm_with_blockchain_rag.Payments.Service.Refunds.{Refunded, handle_refund_lem}
use crm_with_blockchain_rag.Payments.Service.Expiry.{
  IsExpired, MayExpire, expiry_event, expire_stale_pending_payments_lem,
}
use crm_with_blockchain_rag.Payments.Service.Idempotency.{create_payment_intent_again}
use crm_with_blockchain_rag.Payments.Repository.{append_event}
use crm_with_blockchain_rag.Tests.Rail.{rail, db, payment_row, worker, request}

assert_transition_iff_example :
    (assert_transition completed refunded ≡ ok tt)
    ↔ ((completed ≡ refunded) ⊎ Move completed refunded)
assert_transition_iff_example = assert_transition_iff completed refunded

three_moves : Run pending 3 refunded
three_moves = move detected (move settled (move returned stop))

Run-le_example : 3 ≤ 3
Run-le_example = Run-le three_moves

abbrev seen : TxDetected
seen = record { payment_id = "p1"; tx_hash = "0xfe"; from_address = "0xcd"; block_number = 7 }

outside : current_tenant worker.store ≡ none
unfolding current_tenant
outside = refl

inside : current_tenant request.store ≡ some "t1"
unfolding current_tenant
inside = refl

handle_confirmation_update-Changes_example :
    Changes rail MayMove db.payments (handle_confirmation_update rail worker "p2" 4 db).1.payments
handle_confirmation_update-Changes_example =
    handle_confirmation_update-Changes rail worker "p2" 4 db

handle_refund-Changes_example :
    Changes rail MayMove db.payments (handle_refund rail request "p3" "t1" db).1.payments
handle_refund-Changes_example = handle_refund-Changes rail request "p3" "t1" db

worker_calls_idle_example :
    (handle_tx_detected rail worker seen db ≡ (ok tt, db))
    × (handle_confirmation_update rail worker "p2" 4 db ≡ (ok tt, db))
worker_calls_idle_example =
    worker_calls_idle rail worker seen "p2" 4 db outside
      (λ id p at e. ground (arith, eq_iff "t1" ""))

expire_stale_pending_payments_lem_example :
    let stale = find_expired_pending rail worker db in
    let (r, s') = expire_stale_pending_payments rail worker db in
    (r ≡ ok (length stale))
    × All (IsExpired rail worker s'.payments) stale
    × Changes rail MayExpire db.payments s'.payments
    × (s'.events ≡ push_all (map (expiry_event rail worker) stale) [])
expire_stale_pending_payments_lem_example = expire_stale_pending_payments_lem rail worker db

abbrev taken : CreatePaymentDto
taken = record {
  idempotency_key = "key-p1";
  amount_usdc = 7;
  chain = polygon;
  wallet_id = "w1";
  deal_id = none;
  required_confirmations = none;
}

-- An intent of the tenant of the context, and one of another tenant under the same key.
abbrev fresh : CreatePaymentDto
fresh = record taken { idempotency_key = "key-p5" }

abbrev with_fresh : Db rail
with_fresh = (create_payment_intent rail request "t1" fresh db).1

abbrev fresh_row : Payment
fresh_row = record (payment_row "p5" pending 86_400_100) { amount_usdc = 7 }

fresh_made : create_payment_intent rail request "t1" fresh db ≡ (ok fresh_row, with_fresh)
unfolding create_payment_intent find_by_idempotency_key find_wallet create all_operations
    current_tenant
fresh_made = refl

create_payment_intent_again_example :
    (create_payment_intent rail worker "t1" (record fresh { amount_usdc = 900 }) with_fresh
      ≡ (ok fresh_row, with_fresh))
    × ((u : String)
        → u ≢ "t1"
        → create_payment_intent rail worker u (record fresh { amount_usdc = 900 }) with_fresh
          ≡ (err conflict, with_fresh))
create_payment_intent_again_example =
    create_payment_intent_again rail request worker "t1" fresh (record fresh { amount_usdc = 900 })
      db with_fresh fresh_row (inr inside) fresh_made refl

refund_path_example : ◌≡◌ {A = ℕ} 3 3
refund_path_example = refund_path three_moves

handle_refund_lem_example :
    Refunded rail request "p3" "t1" db
      (handle_refund rail request "p3" "t1" db).1
      (payment_row "p3" refunded 50)
unfolding handle_refund find_by_id all_operations assert_transition transition append_event
handle_refund_lem_example = handle_refund_lem rail request "p3" "t1" db _ _ refl

-- A worker whose commit fails.
abbrev cut_off : Env
cut_off = record worker { commits = false }

abbrev after_cut : Db rail
after_cut = (settle_payment rail cut_off (payment_row "p2" confirming 50) db).1

abbrev after_retry : Db rail
after_retry = (settle_payment rail worker (payment_row "p2" confirming 50) after_cut).1

settlement_cut :
    settle_payment rail cut_off (payment_row "p2" confirming 50) db ≡ (err commit_failed, after_cut)
unfolding settle_payment assert_transition transition all_operations Ledger.settle_payment
    find_accounts find_account
settlement_cut = refl

settlement_retried :
    settle_payment rail worker (payment_row "p2" confirming 50) after_cut ≡ (ok tt, after_retry)
unfolding settle_payment assert_transition transition all_operations Ledger.settle_payment
    find_accounts find_account post_entries write_entry Ledger.fee_of
settlement_retried = refl

settle_payment_twice_example :
    let input = settlement_input rail (payment_row "p2" confirming 50) in
    (after_cut.payments ≡ db.payments)
    × (after_cut.events ≡ db.events)
    × (after_cut.webhooks ≡ db.webhooks)
    × ((t t' : Triple) × (after_retry.books.entries
          ≡ settled_entries worker input t' (settled_entries cut_off input t db.books.entries)))
settle_payment_twice_example =
    settle_payment_twice rail cut_off worker (payment_row "p2" confirming 50) db after_cut
      after_retry settlement_cut settlement_retried
