-- ===== src/Payments/Repository.antt =====
-- crm-backend/src/modules/payments/payments.repository.ts. Each call goes through the tenant scoping
-- of the client.
pub mod Transition
use crm_with_blockchain_rag.Base.{
  Bool, List, Option, String, [], if◌then◌else◌, ltb, none, some, suc, zero, ℕ, ◌&&◌, ◌===◌, ◌∷◌,
}
use crm_with_blockchain_rag.Tenancy.Queries.{Env, passes, row_tenant, tenant_filter}
use crm_with_blockchain_rag.Tenancy.{Operation, all_operations}
use crm_with_blockchain_rag.Ledger.{Chain, chain_eq}
use crm_with_blockchain_rag.Payments.StateMachine.{PaymentStatus, pending, confirming, status_eq}
use crm_with_blockchain_rag.Payments.Types.{PaymentDirection, Payment, Client, Db}

-- `CreatePaymentInput`
pub record CreatePaymentInput : Type 0 where
  pub tenant_id : String
  pub idempotency_key : String
  pub direction : PaymentDirection
  pub amount_usdc : ℕ
  pub chain : Chain
  pub wallet_id : String
  pub to_address : String
  pub deal_id : Option String
  pub expires_at : ℕ
  pub required_confirmations : Option ℕ

abbrev pub or_else {ℓ} : {A : Type ℓ} → Option A → A → A
or_else none d = d
or_else (some a) d = a

-- A nullable column under an update that may leave it out.
abbrev pub or_kept {ℓ} : {A : Type ℓ} → Option A → Option A → Option A
or_kept none old = old
or_kept (some a) old = some a

-- The row that `create` writes, with the defaults of the schema.
abbrev pub new_payment : Env → CreatePaymentInput → String → Payment
new_payment env input id = record {
  id = id;
  tenant_id = row_tenant env "Payment" input.tenant_id;
  idempotency_key = input.idempotency_key;
  status = pending;
  direction = input.direction;
  amount_usdc = input.amount_usdc;
  chain = input.chain;
  wallet_id = input.wallet_id;
  from_address = none;
  to_address = input.to_address;
  deal_id = input.deal_id;
  tx_hash = none;
  block_number = none;
  confirmations = 0;
  required_confirmations = or_else input.required_confirmations 3;
  detected_at = none;
  confirmed_at = none;
  failed_at = none;
  expires_at = input.expires_at;
  failure_reason = none;
}

-- The partial update of `transition`.
pub record Updates : Type 0 where
  pub tx_hash : Option String
  pub from_address : Option String
  pub block_number : Option ℕ
  pub confirmations : Option ℕ
  pub detected_at : Option ℕ
  pub confirmed_at : Option ℕ
  pub failed_at : Option ℕ
  pub failure_reason : Option String

abbrev pub no_updates : Updates
no_updates = record {
  tx_hash = none;
  from_address = none;
  block_number = none;
  confirmations = none;
  detected_at = none;
  confirmed_at = none;
  failed_at = none;
  failure_reason = none;
}

-- `data: { status: to, ...updates }`
abbrev pub updated : PaymentStatus → Updates → Payment → Payment
updated to u p = record p {
  status = to;
  tx_hash = or_kept u.tx_hash p.tx_hash;
  from_address = or_kept u.from_address p.from_address;
  block_number = or_kept u.block_number p.block_number;
  confirmations = or_else u.confirmations p.confirmations;
  detected_at = or_kept u.detected_at p.detected_at;
  confirmed_at = or_kept u.confirmed_at p.confirmed_at;
  failed_at = or_kept u.failed_at p.failed_at;
  failure_reason = or_kept u.failure_reason p.failure_reason;
}

abbrev pub is_expired_pending : Env → Payment → Bool
is_expired_pending env p =
    passes (tenant_filter env "Payment" Operation.find_many none) p.tenant_id
    && status_eq p.status pending
    && ltb p.expires_at env.now

abbrev pub take {ℓ} : {A : Type ℓ} → ℕ → List A → List A
take zero xs = []
take (suc n) [] = []
take (suc n) (x ∷ xs) = x ∷ take n xs

module _ (c : Client) where
  unfoldable pub create : Env → CreatePaymentInput → Db c → Option (Payment × Db c)
  create env input s = elim (c.payment.create (new_payment env input) s.payments) [
    | none ↦ none
    | some (p, t) ↦ some (p, record s { payments = t })
  ]

  unfoldable pub find_by_id : Env → String → String → Db c → Option Payment
  find_by_id env id tenant_id s =
      c.payment.find_first
        (λ p.
          p.id === id
          && passes (tenant_filter env "Payment" Operation.find_first (some tenant_id)) p.tenant_id)
        s.payments

  -- `findUnique` on the key, which is unique; the client does not scope it.
  unfoldable pub find_by_idempotency_key : String → Db c → Option Payment
  find_by_idempotency_key key s = c.payment.find_first (λ p. p.idempotency_key === key) s.payments

  -- `toAddress` is compared by `same`, the case-insensitive mode of the database.
  unfoldable pub find_pending_by_address :
      Env → (String → String → Bool) → String → Chain → Db c → Option Payment
  find_pending_by_address env same to_address chain s =
      c.payment.find_first
        (λ p.
          passes (tenant_filter env "Payment" Operation.find_first none) p.tenant_id
          && same p.to_address to_address
          && chain_eq p.chain chain
          && status_eq p.status pending)
        s.payments

  unfoldable pub find_all_confirming : Env → Db c → List Payment
  find_all_confirming env s =
      c.payment.find_many
        (λ p.
          passes (tenant_filter env "Payment" Operation.find_many none) p.tenant_id
          && status_eq p.status confirming)
        s.payments

  unfoldable pub find_expired_pending : Env → Db c → List Payment
  find_expired_pending env s = take 200 (c.payment.find_many (is_expired_pending env) s.payments)

  -- `none` where no row of the tenant in the context has the key: the client then throws.
  unfoldable pub transition :
      Env → String → PaymentStatus → Updates → Db c → Option (Payment × Db c)
  transition env id to u s = elim (c.payment.find_unique id s.payments) [
    | none ↦ none
    | some p ↦
        if passes (tenant_filter env "Payment" Operation.update none) p.tenant_id
        then elim (c.payment.update id (updated to u) s.payments) [
          | none ↦ none
          | some (p', t) ↦ some (p', record s { payments = t })
        ]
        else none
  ]

  unfoldable pub append_event :
      Env → String → String → PaymentStatus → PaymentStatus → String → Db c → Db c
  append_event env payment_id tenant_id from to event s = record s {
    events =
        record {
          payment_id = payment_id;
          tenant_id = row_tenant env "PaymentEvent" tenant_id;
          from_status = from;
          to_status = to;
          event = event;
        }
        ∷ s.events;
  }
