-- ===== src/Workers/Confirmations/Polls.antt =====
-- What a poll does to the payments.
use crm_with_blockchain_rag.Base.{
  All, Bool, Bool-cases, List, Option, Option-cases, String, [], arith, eq_iff, false, find, inl,
  inr, ltb, none, ok, refl, some, subst, true, ℕ, ◌&&◌, ◌+◌, ◌-◌, ◌===◌, ◌∷◌, ◌≡◌, ◌≤◌,
}
use crm_with_blockchain_rag.Tenancy.{Operation, current_tenant}
use crm_with_blockchain_rag.Tenancy.Queries.{Env, passes, tenant_filter}
use crm_with_blockchain_rag.Payments.StateMachine.{
  PaymentStatus, confirming, failed, status_eq, assert_transition,
}
use crm_with_blockchain_rag.Payments.StateMachine.Lifecycle.{assert_transition_iff}
use crm_with_blockchain_rag.Payments.Types.{Payment, Client, Db}
use crm_with_blockchain_rag.Payments.Repository.{find_all_confirming, transition, append_event}
use crm_with_blockchain_rag.Payments.Repository.Transition.{payment_at}
use crm_with_blockchain_rag.Payments.Service.{handle_confirmation_update}
use crm_with_blockchain_rag.Payments.Service.Changes.{
  Changes, Changes-refl, MayMove, transition-Changes, handle_confirmation_update-Changes,
}
use crm_with_blockchain_rag.Payments.Service.Detection.{HasTenants, worker_calls_idle}
use crm_with_blockchain_rag.Workers.Deposits.{PollJob, WorkerDb}
use crm_with_blockchain_rag.Workers.Confirmations.{
  Receipt, Answer, max_wait_blocks, blocks_since_seen, failure, fail_payment, schedule_recheck,
  confirm, poll_payment, poll,
}

find-All :
    {A : Type 0} (P : A → Type 0) (f : A → Bool) (l : List A) (a : A)
    → All P l
    → find f l ≡ some a
    → P a × (f a ≡ true)
find-All P f [] a h e = ground arith
find-All P f (x ∷ l) a (hx, hl) e = elim (Bool-cases (f x)) [
  | inl here ↦ let same : x ≡ a = ground arith in (rw same at hx, rw same at here)
  | inr other ↦ find-All P f l a hl (ground arith)
]

confirming_fails :
    (a : PaymentStatus) → status_eq a confirming ≡ true → assert_transition a failed ≡ ok tt
unfolding assert_transition
confirming_fails confirming h = refl
confirming_fails _ h = cc

module _ (c : Client) (env : Env) where
  -- A payment that a poll finds is the one of the job, and is being confirmed.
  found_confirming :
      (id : String) (s : Db c) (p : Payment)
      → find (λ q. q.id === id) (find_all_confirming c env s) ≡ some p
      → (payment_at c id s ≡ some p) × (status_eq p.status confirming ≡ true) × (p.id ≡ id)
  unfolding find_all_confirming
  found_confirming id s p e =
      let ((holds, at), here) =
        find-All
          (λ q.
            (passes (tenant_filter env "Payment" Operation.find_many none) q.tenant_id
                && status_eq q.status confirming
              ≡ true)
            × (c.payment.find_unique (c.payment.key q) s.payments ≡ some q))
          (λ q. q.id === id) _ p (c.payment.find_many_sound _ s.payments) e in
      let same = (eq_iff p.id id).0 here in (cc (at, c.payment_keyed p, same), ground arith, same)

  unmoved : (t : c.payment.State) → Changes c MayMove t t
  unmoved t = Changes-refl c MayMove t (λ a. inl refl)

  moved_to : (t u v : c.payment.State) → u ≡ v → Changes c MayMove t u → Changes c MayMove t v
  moved_to t u v same changes = subst (λ x. Changes c MayMove t x) same changes

  legal : (p r : Payment) → p ≡ r → status_eq p.status confirming ≡ true → MayMove r.status failed
  legal p r same here =
      rw (← same) ((assert_transition_iff p.status failed).0 (confirming_fails p.status here))

  fail_payment-Changes :
      (tenant_id tx_hash reason : String) (s : WorkerDb c) (id : String) (p : Payment)
      → payment_at c id s.db ≡ some p
      → status_eq p.status confirming ≡ true
      → Changes c MayMove s.db.payments
          (fail_payment c env id tenant_id tx_hash reason s).1.db.payments
  unfolding fail_payment append_event
  fail_payment-Changes tenant_id tx_hash reason s id p at here =
      elim (Option-cases (transition c env id failed (failure env reason) s.db)) [
        | inl missed ↦ moved_to s.db.payments s.db.payments _ (ground arith) (unmoved s.db.payments)
        | inr ((q, db), done) ↦ moved_to s.db.payments db.payments _ (ground arith) (
            transition-Changes c MayMove env id failed (failure env reason) s.db db q
              (λ a. inl refl) (λ r at'. legal p r (cc (at, at')) here) done)
      ]

  confirm-Changes :
      (receipt : Receipt) (n : ℕ) (job : PollJob) (s : WorkerDb c)
      → Changes c MayMove s.db.payments (confirm c env receipt n job s).1.db.payments
  unfolding confirm schedule_recheck
  confirm-Changes receipt n job s =
      let m = n + 1 - receipt.block_number in
      let same : (confirm c env receipt n job s).1.db.payments
          ≡ (handle_confirmation_update c env job.payment_id m s.db).1.payments =
        ground arith in
      rw same (handle_confirmation_update-Changes c env job.payment_id m s.db)

  poll_payment-Changes :
      (a : Answer) (p : Payment) (job : PollJob) (s : WorkerDb c)
      → payment_at c job.payment_id s.db ≡ some p
      → status_eq p.status confirming ≡ true
      → Changes c MayMove s.db.payments (poll_payment c env a p job s).1.db.payments
  unfolding poll_payment schedule_recheck
  poll_payment-Changes a p job s at here =
      let started = s.db.payments in
      let fails = λ (reason : String).
        fail_payment-Changes p.tenant_id job.tx_hash reason s job.payment_id p at here in
      elim (Option-cases a.receipt) [
        | inl unseen ↦
            elim (Bool-cases (ltb max_wait_blocks (blocks_since_seen p a.current_block))) [
              | inl dropped ↦
                  moved_to started _ _ (ground arith) (fails "Transaction dropped from mempool")
              | inr waiting ↦ moved_to started started _ (ground arith) (unmoved started)
            ]
        | inr (receipt, seen) ↦ elim (Bool-cases receipt.reverted) [
          | inl reverted ↦
              moved_to started _ _ (ground arith) (fails "Transaction reverted on-chain")
          | inr kept ↦
              moved_to started _ _ (ground arith) (confirm-Changes receipt a.current_block job s)
        ]
      ]

  -- A poll, whatever the chain answers, changes no status but along the lifecycle, and no payment's
  -- identity, tenant, amount or chain.
  pub poll-Changes :
      (answer : Option Answer) (job : PollJob) (s : WorkerDb c)
      → Changes c MayMove s.db.payments (poll c env answer job s).1.db.payments
  unfolding poll poll_payment schedule_recheck
  poll-Changes answer job s =
      let started = s.db.payments in
      elim (Option-cases (find (λ q. q.id === job.payment_id) (find_all_confirming c env s.db))) [
        | inl missing ↦ moved_to started started _ (ground arith) (unmoved started)
        | inr (p, found) ↦
            let (at, here, _) = found_confirming job.payment_id s.db p found in
            elim (Option-cases answer) [
              | inl silent ↦ moved_to started started _ (ground arith) (unmoved started)
              | inr (a, answered) ↦
                  moved_to started (poll_payment c env a p job s).1.db.payments _ (ground arith)
                    (poll_payment-Changes a p job s at here)
            ]
      ]

  -- Outside a tenant context, a poll that finds the transaction in a block leaves the payments, the
  -- ledger, the audit events and the webhooks as they were, however many blocks have confirmed it;
  -- and where there are enough of them, it succeeds and asks for no further poll.
  pub poll_idle :
      (receipt : Receipt) (n : ℕ) (job : PollJob) (s : WorkerDb c)
      → current_tenant env.store ≡ none
      → HasTenants c s.db
      → receipt.reverted ≡ false
      → let (r, s') =
          poll c env (some (record { receipt = some receipt; current_block = n })) job s in
        (s'.db ≡ s.db)
        × (job.target_confirmations + receipt.block_number ≤ n + 1
            → (r ≡ ok tt) × (s'.polls ≡ s.polls))
  unfolding poll poll_payment confirm schedule_recheck
  poll_idle receipt n job s h tenants fine =
      let m = n + 1 - receipt.block_number in
      let nothing : handle_confirmation_update c env job.payment_id m s.db ≡ (ok tt, s.db) =
        (worker_calls_idle c env
          (record { payment_id = ""; tx_hash = ""; from_address = ""; block_number = 0 })
          job.payment_id m s.db h tenants).1 in
      (ground arith, λ enough. (ground arith, ground arith))
