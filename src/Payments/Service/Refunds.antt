-- ===== src/Payments/Service/Refunds.antt =====
-- Refunds.
use crm_with_blockchain_rag.Base.{
  Option, Option-cases, String, arith, eq_iff, if◌then◌else◌, inl, inr, length, none, ok, refl,
  some, true, ◌+◌, ◌∷◌, ◌≡◌, ◌≢◌, ◌⊎◌,
}
use crm_with_blockchain_rag.Tenancy.Queries.{Env, passes, row_tenant, tenant_filter}
use crm_with_blockchain_rag.Tenancy.{Operation, current_tenant, all_operations}
use crm_with_blockchain_rag.Payments.StateMachine.{
  PaymentStatus, completed, refunded, assert_transition,
}
use crm_with_blockchain_rag.Payments.Types.{Payment, PaymentEvent, WebhookJob, Client, Db}
use crm_with_blockchain_rag.Payments.Repository.{
  no_updates, updated, transition, find_by_id, append_event,
}
use crm_with_blockchain_rag.Payments.Repository.Transition.{
  payment_at, transition-some, transition_total, find_by_id_sound,
}
use crm_with_blockchain_rag.Payments.Service.{handle_refund}

refundable :
    (a : PaymentStatus) → assert_transition a refunded ≡ ok tt → (a ≡ completed) ⊎ (a ≡ refunded)
unfolding assert_transition
refundable completed h = inl refl
refundable refunded h = inr refl
refundable _ h = cc

scoped_filter :
    (env : Env) (t : String) (op : Operation) (filter : Option String)
    → current_tenant env.store ≡ some t
    → (op ≡ Operation.find_first) ⊎ (op ≡ Operation.update)
    → tenant_filter env "Payment" op filter ≡ some t
unfolding all_operations
scoped_filter env t op filter h (inl e) = ground arith
scoped_filter env t op filter h (inr e) = ground arith

module _ (c : Client) (env : Env) where
  -- The audit event of a refund, and its webhook.
  abbrev pub refund_event : Payment → PaymentEvent
  refund_event p = record {
    payment_id = p.id;
    tenant_id = row_tenant env "PaymentEvent" p.tenant_id;
    from_status = completed;
    to_status = refunded;
    event = "payment_refunded";
  }

  abbrev pub refund_job : Payment → WebhookJob
  refund_job p = record {
    tenant_id = p.tenant_id;
    event = "PAYMENT_REFUNDED";
    payment_id = p.id;
    amount_usdc = p.amount_usdc;
  }

  -- What a successful refund has done.
  pub record Refunded (id tenant_id : String) (s s' : Db c) (q : Payment) : Type 0 where
    pub payment : Payment
    pub found : find_by_id c env id tenant_id s ≡ some payment
    pub status_was : (payment.status ≡ completed) ⊎ (payment.status ≡ refunded)
    pub result : q ≡ updated refunded no_updates payment
    pub stored : payment_at c payment.id s' ≡ some q
    pub others_kept : (j : String) → payment.id ≢ j → payment_at c j s' ≡ payment_at c j s
    pub audited : s'.events ≡ refund_event payment ∷ s.events
    pub announced : s'.webhooks ≡ (
        if c.takes s.webhooks (refund_job payment)
        then refund_job payment ∷ s.webhooks
        else s.webhooks)
    pub books_kept : s'.books ≡ s.books
    pub wallets_kept : s'.wallets ≡ s.wallets

  -- A refund that succeeds found a payment that was completed or refunded before, has stored it as
  -- refunded with its other columns kept, and changed no other payment, no wallet and not the ledger;
  -- it has written one audit event, of this payment from completed to refunded, and queued its webhook
  -- where the queue takes it.
  pub handle_refund_lem :
      (id tenant_id : String) (s s' : Db c) (q : Payment)
      → handle_refund c env id tenant_id s ≡ (ok q, s')
      → Refunded id tenant_id s s' q
  unfolding handle_refund append_event
  handle_refund_lem id tenant_id s s' q e = elim (Option-cases (find_by_id c env id tenant_id s)) [
    | inl missing ↦ ground arith
    | inr (p, found) ↦ elim (Option-cases (transition c env p.id refunded no_updates s)) [
      | inl missed ↦ ground arith
      | inr ((p', t), moved) ↦
          let (r, at, same, after, whole, _) =
            transition-some c env p.id refunded no_updates s t p' moved in
          let (_, at_p, _) = find_by_id_sound c env id tenant_id s p found in
          let rp : r ≡ p = cc (at, at_p) in
          record {
            payment = p;
            found = found;
            status_was = refundable p.status (ground arith);
            result = ground (arith, rp, same);
            stored = ground (arith, rp, same, after p.id, eq_iff p.id p.id);
            others_kept = λ j n. ground (arith, after j, eq_iff p.id j);
            audited = ground (arith, whole);
            announced = ground (arith, whole);
            books_kept = ground (arith, whole);
            wallets_kept = ground (arith, whole);
          }
    ]
  ]

  -- In the context of a tenant only a payment of that tenant can be refunded, whatever tenant the
  -- caller names.
  pub handle_refund_own :
      (t id tenant_id : String) (s s' : Db c) (q : Payment)
      → current_tenant env.store ≡ some t
      → handle_refund c env id tenant_id s ≡ (ok q, s')
      → (q.tenant_id ≡ t) × (q.id ≡ id)
  handle_refund_own t id tenant_id s s' q h e =
      let done = handle_refund_lem id tenant_id s s' q e in
      let (same_id, _, owned) = find_by_id_sound c env id tenant_id s done.payment done.found in
      let owner : done.payment.tenant_id ≡ t =
        (eq_iff done.payment.tenant_id t).0
          (rw (scoped_filter env t Operation.find_first (some tenant_id) h (inl refl)) at owned) in
      (rw done.result owner, rw done.result same_id)

  -- A payment that is refunded already is refunded again: the call succeeds, and a second audit event
  -- from completed to refunded is written.
  pub handle_refund_again :
      (id t : String) (s : Db c) (p : Payment)
      → current_tenant env.store ≡ some t
      → env.commits ≡ true
      → find_by_id c env id t s ≡ some p
      → p.status ≡ refunded
      → (q : Payment) × ((handle_refund c env id t s).0 ≡ ok q)
        × (length (handle_refund c env id t s).1.events ≡ length s.events + 1)
  unfolding handle_refund append_event assert_transition
  handle_refund_again id t s p h commits found was =
      let (_, at, owned) = find_by_id_sound c env id t s p found in
      let owned' : passes (tenant_filter env "Payment" Operation.update none) p.tenant_id ≡ true =
        rw (scoped_filter env t Operation.update none h (inr refl))
          (rw (scoped_filter env t Operation.find_first (some t) h (inl refl)) at owned) in
      elim (Option-cases (transition c env p.id refunded no_updates s)) [
        | inl missing ↦
            absurd (transition_total c env p.id refunded no_updates s p at owned' missing)
        | inr ((q, u), moved) ↦
            let (_, _, _, _, whole, _) =
              transition-some c env p.id refunded no_updates s u q moved in
            (q, ground arith, ground (arith, whole))
      ]
