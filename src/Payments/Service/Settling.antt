-- ===== src/Payments/Service/Settling.antt =====
-- What the internal settlement leaves when it fails.
use crm_with_blockchain_rag.Base.{ap, arith, err, ok, sym, ◌∙◌, ◌≡◌}
use crm_with_blockchain_rag.Tenancy.Queries.{Env}
use crm_with_blockchain_rag.Payments.Types.{Payment, Client, Db, PaymentError, commit_failed}
use crm_with_blockchain_rag.Payments.Repository.{append_event}
use crm_with_blockchain_rag.Ledger.Service as LedgerService
use crm_with_blockchain_rag.Ledger.Service.{Triple}
use crm_with_blockchain_rag.Ledger.Service.Entries.{settled_entries, settle_payment-entries}
use crm_with_blockchain_rag.Payments.Service.{settlement_input, settle_payment}

module _ (c : Client) where
  -- A settlement that fails leaves the payments, the wallets, the audit events and the webhooks as
  -- they were.
  pub settle_payment_failed :
      (env : Env) (p : Payment) (s : Db c) (e : PaymentError)
      → (settle_payment c env p s).0 ≡ err e
      → let s' = (settle_payment c env p s).1 in
        (s'.payments ≡ s.payments)
        × (s'.wallets ≡ s.wallets)
        × (s'.events ≡ s.events)
        × (s'.webhooks ≡ s.webhooks)
  unfolding settle_payment append_event
  settle_payment_failed env p s e h = ground arith

  -- A settlement whose commit failed after the ledger had settled: the payment is as it was, and the
  -- ledger has the entries of the payment.
  settled_before_cut :
      (env : Env) (p : Payment) (s s' : Db c)
      → settle_payment c env p s ≡ (err commit_failed, s')
      → (s'.payments ≡ s.payments)
        × ((t : Triple) × (s'.books.entries
              ≡ settled_entries env (settlement_input c p) t s.books.entries))
  unfolding settle_payment append_event
  settled_before_cut env p s s' e =
      let ledger : (LedgerService.settle_payment c.account env 2 (settlement_input c p) s.books).0
          ≡ ok tt =
        ground arith in
      let (t, added) =
        settle_payment-entries c.account c.account_keyed env (settlement_input c p) s.books
          ledger in
      (ground arith, (t, ground (arith, added)))

  settled_after :
      (env : Env) (p : Payment) (s s' : Db c)
      → settle_payment c env p s ≡ (ok tt, s')
      → (t : Triple) × (s'.books.entries
          ≡ settled_entries env (settlement_input c p) t s.books.entries)
  unfolding settle_payment append_event
  settled_after env p s s' e =
      let ledger : (LedgerService.settle_payment c.account env 2 (settlement_input c p) s.books).0
          ≡ ok tt =
        ground arith in
      let (t, added) =
        settle_payment-entries c.account c.account_keyed env (settlement_input c p) s.books
          ledger in
      (t, ground (arith, added))

  -- A settlement whose commit fails after the ledger has settled leaves the payments, the audit
  -- events and the webhooks as they were; where the payment is then settled again with success, the
  -- ledger has the entries of this payment, of the gross amount and of a fee that is not zero, twice.
  pub settle_payment_twice :
      (env later : Env) (p : Payment) (s s₁ s₂ : Db c)
      → settle_payment c env p s ≡ (err commit_failed, s₁)
      → settle_payment c later p s₁ ≡ (ok tt, s₂)
      → let input = settlement_input c p in
        (s₁.payments ≡ s.payments)
        × (s₁.events ≡ s.events)
        × (s₁.webhooks ≡ s.webhooks)
        × ((t t' : Triple) × (s₂.books.entries
              ≡ settled_entries later input t' (settled_entries env input t s.books.entries)))
  settle_payment_twice env later p s s₁ s₂ cut done =
      let (_, _, events, webhooks) =
        settle_payment_failed env p s commit_failed (ap (λ o. o.0) cut) in
      let (payments, (t, first)) = settled_before_cut env p s s₁ cut in
      let (t', second) = settled_after later p s₁ s₂ done in
      (
        payments,
        sym (ap (λ o. o.1.events) cut) ∙ events,
        sym (ap (λ o. o.1.webhooks) cut) ∙ webhooks,
        (t, t', second ∙ ap (λ l. settled_entries later (settlement_input c p) t' l) first),
      )
