-- ===== src/Payments/Service/Intents.antt =====
-- Creating payment intents.
use crm_with_blockchain_rag.Base.{
  Option-cases, String, ap, arith, eq_iff, err, inl, inr, none, ok, some, sym, ◌*◌, ◌+◌, ◌∙◌, ◌≡◌,
  ◌≢◌,
}
use crm_with_blockchain_rag.Tenancy.Queries.{Env}
use crm_with_blockchain_rag.Prisma.{create-finds, create-keeps}
use crm_with_blockchain_rag.Payments.StateMachine.{pending}
use crm_with_blockchain_rag.Payments.Types.{inbound, Payment, WalletRef, Client, Db, conflict}
use crm_with_blockchain_rag.Payments.Repository.{
  CreatePaymentInput, new_payment, create, find_by_idempotency_key, or_else,
}
use crm_with_blockchain_rag.Payments.Repository.Transition.{payment_at}
use crm_with_blockchain_rag.Payments.Service.{
  CreatePaymentDto, payment_expiry_hours, default_required_confirmations, find_wallet,
  create_payment_intent,
}

module _ (c : Client) (env : Env) where
  -- A key that is taken changes nothing: the tenant that holds it gets its payment back, and any
  -- other tenant is refused.
  pub create_payment_intent_taken :
      (t : String) (dto : CreatePaymentDto) (s : Db c) (p : Payment)
      → find_by_idempotency_key c dto.idempotency_key s ≡ some p
      → (p.tenant_id ≡ t → create_payment_intent c env t dto s ≡ (ok p, s))
        × (p.tenant_id ≢ t → create_payment_intent c env t dto s ≡ (err conflict, s))
  unfolding create_payment_intent
  create_payment_intent_taken t dto s p e =
      (λ same. ground (arith, eq_iff p.tenant_id t), λ other. ground (arith, eq_iff p.tenant_id t))

  -- What a new intent is.
  pub record Intent (t : String) (dto : CreatePaymentDto) (w : WalletRef) (s s' : Db c)
      (p : Payment) : Type 0 where
    pub starts : p.status ≡ pending
    pub keyed : p.idempotency_key ≡ dto.idempotency_key
    pub amount : p.amount_usdc ≡ dto.amount_usdc
    pub deposit_to : p.to_address ≡ w.address
    pub expiry : p.expires_at ≡ env.now + 86_400_000
    pub required : p.required_confirmations ≡ or_else dto.required_confirmations 3
    pub fresh : payment_at c p.id s ≡ none
    pub stored : payment_at c p.id s' ≡ some p
    pub others : (j : String) (x : Payment) → payment_at c j s ≡ some x → payment_at c j s' ≡ some x
    pub books_kept : s'.books ≡ s.books

  abbrev pub intent_input : String → CreatePaymentDto → WalletRef → CreatePaymentInput
  intent_input t dto w = record {
    tenant_id = t;
    idempotency_key = dto.idempotency_key;
    direction = inbound;
    amount_usdc = dto.amount_usdc;
    chain = dto.chain;
    wallet_id = w.id;
    to_address = w.address;
    deal_id = dto.deal_id;
    expires_at = env.now + payment_expiry_hours * 60 * 60 * 1000;
    required_confirmations =
        some (or_else dto.required_confirmations default_required_confirmations);
  }

  abbrev row : String → CreatePaymentDto → WalletRef → String → Payment
  row t dto w = new_payment env (intent_input t dto w)

  -- Under a key that is not taken, a call that succeeds has found a wallet of the tenant and stored
  -- one new pending payment that deposits to the address of that wallet and expires after a day; all
  -- that was stored before is still there.
  pub create_payment_intent_new :
      (t : String) (dto : CreatePaymentDto) (s s' : Db c) (p : Payment)
      → find_by_idempotency_key c dto.idempotency_key s ≡ none
      → create_payment_intent c env t dto s ≡ (ok p, s')
      → (w : WalletRef) × (find_wallet c env dto.wallet_id t s ≡ some w) × Intent t dto w s s' p
  unfolding create_payment_intent create
  create_payment_intent_new t dto s s' p free e =
      elim (Option-cases (find_wallet c env dto.wallet_id t s)) [
        | inl missing ↦ ground arith
        | inr (w, found) ↦ elim (Option-cases (c.payment.create (row t dto w) s.payments)) [
          | inl refused ↦ ground arith
          | inr ((q, u), made) ↦
              let (whole, fresh, _) =
                c.payment.create_lem (row t dto w) s.payments u q (λ i. c.payment_keyed _) made in
              let stored =
                create-finds c.payment (row t dto w) s.payments u q (λ i. c.payment_keyed _) made in
              let qp : q ≡ p = ground arith in
              let up : u ≡ s'.payments = ground arith in
              let pq : p ≡ row t dto w (c.payment.key q) = sym qp ∙ whole in
              let key_q : c.payment.key q ≡ p.id = c.payment_keyed q ∙ ap (λ x. x.id) qp in
              (
                w,
                found,
                record {
                  starts = ap (λ x. x.status) pq;
                  keyed = ap (λ x. x.idempotency_key) pq;
                  amount = ap (λ x. x.amount_usdc) pq;
                  deposit_to = ap (λ x. x.to_address) pq;
                  expiry = ap (λ x. x.expires_at) pq;
                  required = ap (λ x. x.required_confirmations) pq;
                  fresh = rw key_q at fresh;
                  stored = cc (key_q, stored, qp, up);
                  others = λ j x at. rw (← up) (
                      create-keeps c.payment (row t dto w) s.payments u q x j
                        (λ i. c.payment_keyed _) made at);
                  books_kept = ground arith;
                },
              )
        ]
      ]
