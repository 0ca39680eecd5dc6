-- ===== src/Payments/Service.antt =====
-- crm-backend/src/modules/payments/payments.service.ts. A call returns its result with the state
-- that it leaves; the callback of a transaction that throws leaves the tables as they were.
pub mod Changes
pub mod Detection
pub mod Settling
pub mod Intents
pub mod Idempotency
pub mod Expiry
pub mod Refunds
use crm_with_blockchain_rag.Base.{
  List, Option, Result, String, [], err, if◌then◌else◌, length, ltb, none, ok, some, ℕ, ◌&&◌, ◌*◌,
  ◌+◌, ◌===◌, ◌∷◌,
}
use crm_with_blockchain_rag.Tenancy.Queries.{Env, passes, tenant_filter}
use crm_with_blockchain_rag.Tenancy.{Operation}
use crm_with_blockchain_rag.Ledger.{Chain}
use crm_with_blockchain_rag.Ledger.Service.{SettlePaymentInput}
use crm_with_blockchain_rag.Ledger.Service as LedgerService
use crm_with_blockchain_rag.Payments.StateMachine.{
  pending, confirming, completed, refunded, expired, status_eq, can_accept_deposit,
  assert_transition,
}
use crm_with_blockchain_rag.Payments.Types.{
  inbound, Payment, WalletRef, WebhookJob, Client, Db, PaymentError, not_found, conflict,
  transition_refused, record_missing, constraint_violation, commit_failed, ledger_failed,
}
use crm_with_blockchain_rag.Payments.Repository.{
  no_updates, create, find_by_id, find_by_idempotency_key, find_expired_pending, transition,
  append_event, or_else, Updates,
}

abbrev pub payment_expiry_hours : ℕ
payment_expiry_hours = 24

abbrev pub default_required_confirmations : ℕ
default_required_confirmations = 3

-- `CreatePaymentDto`, with the amount read as a decimal.
pub record CreatePaymentDto : Type 0 where
  pub idempotency_key : String
  pub amount_usdc : ℕ
  pub chain : Chain
  pub wallet_id : String
  pub deal_id : Option String
  pub required_confirmations : Option ℕ

-- The parameters of `handleTxDetected`.
pub record TxDetected : Type 0 where
  pub payment_id : String
  pub tx_hash : String
  pub from_address : String
  pub block_number : ℕ

-- The columns that a detected transaction sets.
abbrev pub detection : Env → TxDetected → Updates
detection env d = record no_updates {
  tx_hash = some d.tx_hash;
  from_address = some d.from_address;
  block_number = some d.block_number;
  confirmations = some 0;
  detected_at = some env.now;
}

module _ (c : Client) where
  abbrev pub Outcome : Type 0 → Type 0
  Outcome A = Result PaymentError A × Db c

  -- The wallet that `walletsRepo.findById` finds.
  unfoldable pub find_wallet : Env → String → String → Db c → Option WalletRef
  find_wallet env id tenant_id s =
      c.wallet.find_first
        (λ w.
          w.id === id
          && passes (tenant_filter env "Wallet" Operation.find_first (some tenant_id)) w.tenant_id)
        s.wallets

  unfoldable pub create_payment_intent : Env → String → CreatePaymentDto → Db c → Outcome Payment
  create_payment_intent env tenant_id dto s =
      elim (find_by_idempotency_key c dto.idempotency_key s) [
        | some existing ↦
            if existing.tenant_id === tenant_id then (ok existing, s) else (err conflict, s)
        | none ↦ elim (find_wallet env dto.wallet_id tenant_id s) [
          | none ↦ (err not_found, s)
          | some wallet ↦
              elim (create c env
                (record {
                  tenant_id = tenant_id;
                  idempotency_key = dto.idempotency_key;
                  direction = inbound;
                  amount_usdc = dto.amount_usdc;
                  chain = dto.chain;
                  wallet_id = wallet.id;
                  to_address = wallet.address;
                  deal_id = dto.deal_id;
                  expires_at = env.now + payment_expiry_hours * 60 * 60 * 1000;
                  required_confirmations =
                      some (or_else dto.required_confirmations default_required_confirmations);
                })
                s) [ none ↦ (err constraint_violation, s) | some (p, s') ↦ (ok p, s') ]
        ]
      ]

  -- The transaction of `handleTxDetected`.
  unfoldable pub record_detection : Env → Payment → TxDetected → Db c → Outcome (Unit {0})
  record_detection env p d s = elim (transition c env p.id confirming (detection env d) s) [
    | none ↦ (err record_missing, s)
    | some (p', s') ↦
        (ok tt, append_event c env p.id p.tenant_id p.status confirming "tx_detected" s')
  ]

  unfoldable pub handle_tx_detected : Env → TxDetected → Db c → Outcome (Unit {0})
  handle_tx_detected env d s = elim (find_by_id c env d.payment_id "" s) [
    | none ↦ (ok tt, s)
    | some p ↦
        if can_accept_deposit p.status
        then elim (assert_transition p.status confirming) [
          | err e ↦ (err (transition_refused e), s)
          | ok _ ↦ record_detection env p d s
        ]
        else (ok tt, s)
  ]

  -- What the settlement asks of the ledger.
  abbrev pub settlement_input : Payment → SettlePaymentInput
  settlement_input p = record {
    tenant_id = p.tenant_id;
    wallet_id = p.wallet_id;
    payment_id = p.id;
    amount_usdc = p.amount_usdc;
    chain = p.chain;
  }

  -- A job that the queue refuses is only logged.
  abbrev enqueue : String → Payment → Db c → Db c
  enqueue event p s =
      let job : WebhookJob = record {
        tenant_id = p.tenant_id;
        event = event;
        payment_id = p.id;
        amount_usdc = p.amount_usdc;
      } in
      record s { webhooks = if c.takes s.webhooks job then job ∷ s.webhooks else s.webhooks }

  -- The private `settlePayment`. The ledger writes on a connection of its own, so that its books are
  -- kept whatever becomes of the transaction around it.
  unfoldable pub settle_payment : Env → Payment → Db c → Outcome (Unit {0})
  settle_payment env p s = elim (assert_transition p.status completed) [
    | err e ↦ (err (transition_refused e), s)
    | ok _ ↦
        elim (transition c env p.id completed (record no_updates { confirmed_at = some env.now })
          s) [
            | none ↦ (err record_missing, s)
            | some (p', s₁) ↦
                let s₂ =
                  append_event c env p.id p.tenant_id confirming completed "payment_settled" s₁ in
                let (r, books) =
                  LedgerService.settle_payment c.account env 2 (settlement_input p) s.books in
                elim r [
                  | err e ↦ (err (ledger_failed e), record s { books = books })
                  | ok _ ↦
                      if env.commits
                      then (ok tt, enqueue "PAYMENT_COMPLETED" p (record s₂ { books = books }))
                      else (err commit_failed, record s { books = books })
                ]
          ]
  ]

  unfoldable pub handle_confirmation_update : Env → String → ℕ → Db c → Outcome (Unit {0})
  handle_confirmation_update env payment_id confirmations s =
      elim (find_by_id c env payment_id "" s) [
        | none ↦ (ok tt, s)
        | some p ↦
            if status_eq p.status confirming
            then (if ltb confirmations p.required_confirmations
                then elim (transition c env p.id confirming
                    (record no_updates { confirmations = some confirmations }) s) [
                      | none ↦ (err record_missing, s)
                      | some (p', s') ↦ (ok tt, s')
                    ]
                else settle_payment env p s)
            else (ok tt, s)
      ]

  -- The expiry of one stale payment: the update, then its event.
  unfoldable pub expire_one : Env → Payment → Db c → Outcome (Unit {0})
  expire_one env p s =
      elim (transition c env p.id expired (record no_updates { failed_at = some env.now }) s) [
        | none ↦ (err record_missing, s)
        | some (p', s') ↦
            (ok tt, append_event c env p.id p.tenant_id pending expired "payment_expired" s')
      ]

  -- All of the calls run, also after one that failed; the first failure is reported.
  pub expire_all : Env → List Payment → Db c → Outcome (Unit {0})
  expire_all env [] s = (ok tt, s)
  expire_all env (p ∷ ps) s =
      let (r, s₁) = expire_one env p s in
      let (rest, s₂) = expire_all env ps s₁ in (elim r [ err e ↦ err e | ok _ ↦ rest ], s₂)

  unfoldable pub expire_stale_pending_payments : Env → Db c → Outcome ℕ
  unfolding expire_all
  expire_stale_pending_payments env s =
      let stale = find_expired_pending c env s in
      let (r, s') = expire_all env stale s in
      (elim r [ err e ↦ err e | ok _ ↦ ok (length stale) ], s')

  unfoldable pub handle_refund : Env → String → String → Db c → Outcome Payment
  handle_refund env payment_id tenant_id s = elim (find_by_id c env payment_id tenant_id s) [
    | none ↦ (err not_found, s)
    | some p ↦ elim (assert_transition p.status refunded) [
      | err e ↦ (err (transition_refused e), s)
      | ok _ ↦ elim (transition c env p.id refunded no_updates s) [
        | none ↦ (err record_missing, s)
        | some (p', s₁) ↦
            if env.commits
            then (
              ok p',
              enqueue "PAYMENT_REFUNDED" p
                  (append_event c env p.id p.tenant_id completed refunded "payment_refunded" s₁),
            )
            else (err commit_failed, s)
      ]
    ]
  ]

  -- The public `findById`.
  unfoldable pub get_by_id : Env → String → String → Db c → Result PaymentError Payment
  get_by_id env id tenant_id s = elim (find_by_id c env id tenant_id s) [
    | none ↦ err not_found
    | some p ↦ ok p
  ]
