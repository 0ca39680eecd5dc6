-- ===== src/Workers/Deposits/Outcomes.antt =====
-- What becomes of a deposit.
use crm_with_blockchain_rag.Base.{
  Bool, List, Option-cases, String, [], any, arith, eq_iff, inl, inr, none, ok, refl, some, true, ℕ,
  ◌+◌, ◌<◌, ◌===◌, ◌∷◌, ◌≡◌, ◌≢◌, ◌≤◌,
}
use crm_with_blockchain_rag.Tenancy.Queries.{Env, passes, tenant_filter}
use crm_with_blockchain_rag.Tenancy.{Operation, current_tenant}
use crm_with_blockchain_rag.Ledger.{Chain}
use crm_with_blockchain_rag.Payments.StateMachine.{failed}
use crm_with_blockchain_rag.Payments.Types.{Payment, Client, Db}
use crm_with_blockchain_rag.Payments.Repository.{updated, find_pending_by_address, transition}
use crm_with_blockchain_rag.Payments.Repository.Transition.{
  payment_at, transition-some, transition_total,
}
use crm_with_blockchain_rag.Payments.Service.Detection.{
  unscoped_filter, HasTenants, worker_calls_idle,
}
use crm_with_blockchain_rag.Workers.Deposits.{
  BlockchainTransferEvent, ChainTransaction, WorkerDb, transaction_of, upsert_transaction, detected,
  underpayment, process,
}

-- A transaction of the hash is on record.
abbrev pub seen : String → List ChainTransaction → Bool
seen h l = any (λ t. t.tx_hash === h) l

upsert_transaction-seen :
    (x : ChainTransaction) (l : List ChainTransaction)
    → seen x.tx_hash (upsert_transaction x l) ≡ true
unfolding upsert_transaction
upsert_transaction-seen x [] = ground (arith, eq_iff x.tx_hash x.tx_hash)
upsert_transaction-seen x (y ∷ l) = ground (arith, upsert_transaction-seen x l)

module _ (c : Client) (text_of : ℕ → String) (same : String → String → Bool) where
  pending_sound :
      (env : Env) (to : String) (chain : Chain) (s : Db c) (p : Payment)
      → find_pending_by_address c env same to chain s ≡ some p
      → payment_at c p.id s ≡ some p
  unfolding find_pending_by_address
  pending_sound env to chain s p e =
      let (_, at) = c.payment.find_first_sound _ s.payments p e in rw (c.payment_keyed p) at at

  -- Outside a tenant context, a deposit that covers the payment it is matched to, up to one unit, is
  -- recorded, and queued for polling under the payment's identity, tenant and number of
  -- confirmations and its own hash and chain, after 15 seconds; it leaves the payments, the ledger,
  -- the audit events and the webhooks as they were.
  pub process_covered :
      (env : Env) (e : BlockchainTransferEvent) (s : WorkerDb c) (p : Payment)
      → current_tenant env.store ≡ none
      → HasTenants c s.db
      → find_pending_by_address c env same e.to_address e.chain s.db ≡ some p
      → p.amount_usdc ≤ e.amount_raw + 1
      → let (r, s') = process c text_of same env e s in
        (r ≡ ok tt)
        × (s'.db ≡ s.db)
        × (seen e.tx_hash s'.transactions ≡ true)
        × (s'.polls
            ≡ record {
              payment_id = p.id;
              tenant_id = p.tenant_id;
              tx_hash = e.tx_hash;
              chain = e.chain;
              target_confirmations = p.required_confirmations;
              delay = 15_000;
            }
              ∷ s.polls)
  unfolding process
  process_covered env e s p h tenants found covered =
      let (idle, _) = worker_calls_idle c env (detected p e) p.id 0 s.db h tenants in
      let kept = upsert_transaction-seen (transaction_of env p e) s.transactions in
      (ground arith, ground arith, ground arith, ground arith)

  -- Outside a tenant context, a deposit that falls short of the payment it is matched to by more than
  -- one unit moves the payment to failed, with no other payment changed, and writes no audit event;
  -- the deposit is recorded and not polled.
  pub process_underpaid :
      (env : Env) (e : BlockchainTransferEvent) (s : WorkerDb c) (p : Payment)
      → current_tenant env.store ≡ none
      → find_pending_by_address c env same e.to_address e.chain s.db ≡ some p
      → e.amount_raw + 1 < p.amount_usdc
      → let (r, s') = process c text_of same env e s in
        (r ≡ ok tt)
        × (payment_at c p.id s'.db ≡ some (updated failed (underpayment c text_of same env p e) p))
        × ((j : String) → p.id ≢ j → payment_at c j s'.db ≡ payment_at c j s.db)
        × (s'.db.events ≡ s.db.events)
        × (seen e.tx_hash s'.transactions ≡ true)
        × (s'.polls ≡ s.polls)
  unfolding process
  process_underpaid env e s p h found short =
      let at = pending_sound env e.to_address e.chain s.db p found in
      let open_filter = unscoped_filter env "Payment" Operation.update none h in
      let owned : passes (tenant_filter env "Payment" Operation.update none) p.tenant_id ≡ true =
        rw (open_filter) refl in
      let kept = upsert_transaction-seen (transaction_of env p e) s.transactions in
      elim (Option-cases
        (transition c env p.id failed (underpayment c text_of same env p e) s.db)) [
          | inl missed ↦ absurd (
              transition_total c env p.id failed (underpayment c text_of same env p e) s.db p at
                owned missed)
          | inr ((q, failed_db), done) ↦
              let (x, here, is_x, after, whole, _) =
                transition-some c env p.id failed (underpayment c text_of same env p e) s.db
                  failed_db q done in
              (
                ground arith,
                ground (arith, after p.id, eq_iff p.id p.id),
                λ j n. ground (arith, after j, eq_iff p.id j),
                ground arith,
                ground arith,
                ground arith,
              )
        ]
