-- ===== src/Billing/Service.antt =====
-- crm-backend/src/modules/billing/billing.service.ts, the payments in crypto currency, with
-- billing.repository.ts. Billing rows are not scoped by tenant. What a violation of the unique columns
-- of Stripe and PayPal does is left out.
use crm_with_blockchain_rag.Base.{
  Option, Result, String, [], err, false, find, if◌then◌else◌, ltb, none, ok, some, truthy, ℕ, ◌*◌,
  ◌+++◌, ◌+◌, ◌===◌, ◌==◌,
}
use crm_with_blockchain_rag.Billing.Types.{
  BillingClient, BillingCycle, BillingError, BillingInfo, ConfirmCryptoPaymentDto,
  CreateCryptoPaymentDto, Pending, annual, business_rule, constraint_violation, dai, eth,
  external_service, monthly, not_found, plans, record_missing, usdc, usdt,
}

abbrev pub crypto_payment_ttl_ms : ℕ
crypto_payment_ttl_ms = 24 * 60 * 60 * 1000

-- A year costs twelve months less a fifth, a whole number of cents.
abbrev pub total_cents : BillingCycle → ℕ → ℕ
total_cents monthly price = price * 100
total_cents annual price = price * 960

abbrev pub period_ms : BillingCycle → ℕ
period_ms annual = 365 * 24 * 60 * 60 * 1000
period_ms monthly = 30 * 24 * 60 * 60 * 1000

module _ (c : BillingClient) where
  abbrev pub Info : Type 0
  Info = BillingInfo c.N

  abbrev pub BillingOutcome : Type 0 → Type 0
  BillingOutcome A = Result BillingError A × c.billing.State

  unfoldable pub find_by_tenant_id : String → c.billing.State → Option Info
  find_by_tenant_id tenant_id s = c.billing.find_first (λ b. b.tenant_id === tenant_id) s

  abbrev pub free_info : String → String → Info
  free_info tenant_id i = record {
    id = i;
    tenant_id = tenant_id;
    stripe_customer_id = none;
    stripe_subscription_id = none;
    paypal_subscription_id = none;
    plan = "FREE";
    status = "ACTIVE";
    current_period_end = none;
    cancel_at_period_end = false;
    metadata = record { pending_crypto_payment = none; last_crypto_payment = none; others = [] };
  }

  unfoldable pub create_info : String → c.billing.State → Option (Info × c.billing.State)
  create_info tenant_id s = c.billing.create (free_info tenant_id) s

  unfoldable pub update_info :
      String → (Info → Info) → c.billing.State → Option (Info × c.billing.State)
  update_info tenant_id f s = elim (find_by_tenant_id tenant_id s) [
    | none ↦ none
    | some b ↦ c.billing.update (c.billing.key b) f s
  ]

  unfoldable pub get_billing_info : String → c.billing.State → BillingOutcome Info
  get_billing_info tenant_id s = elim (find_by_tenant_id tenant_id s) [
    | some b ↦ (ok b, s)
    | none ↦ elim (create_info tenant_id s) [
      | none ↦ (err constraint_violation, s)
      | some (b, s₁) ↦ (ok b, s₁)
    ]
  ]

  -- The intent that `createCryptoPayment` makes, and then shows.
  abbrev pub pending_of :
      ℕ → Option c.N → String → String → ℕ → CreateCryptoPaymentDto → Pending c.N
  pending_of now live tenant_id address price dto =
      let total = total_cents dto.billing_cycle price in
      let eth_price : c.N = elim live [ none ↦ c.fallback_price | some p ↦ p ] in
      record {
        ref = "CRM-" +++ c.upper (c.first_eight tenant_id) +++ "-" +++ c.show now;
        plan_id = dto.plan_id;
        currency = dto.currency;
        amount = elim (dto.currency) [
          | eth ↦ c.in_eth total eth_price
          | usdc ↦ c.in_usd total
          | usdt ↦ c.in_usd total
          | dai ↦ c.in_usd total
        ];
        amount_usd = total;
        billing_cycle = dto.billing_cycle;
        wallet_address = address;
        eth_price_usd = elim (dto.currency) [
          | eth ↦ some eth_price
          | usdc ↦ none
          | usdt ↦ none
          | dai ↦ none
        ];
        created_at = now;
        expires_at = now + crypto_payment_ttl_ms;
      }

  abbrev pub with_pending : Option (Pending c.N) → Info → Info → Info
  with_pending p b r = record r { metadata = record b.metadata { pending_crypto_payment = p } }

  -- The part of `createCryptoPayment` that stores the intent.
  unfoldable pub store_pending :
      String → Pending c.N → c.billing.State → BillingOutcome (Pending c.N)
  store_pending tenant_id p s =
      let (r, s₁) = get_billing_info tenant_id s in
      elim r [
        | err e ↦ (err e, s₁)
        | ok b ↦ elim (update_info tenant_id (with_pending (some p) b) s₁) [
          | none ↦ (err record_missing, s₁)
          | some (x, s₂) ↦ (ok p, s₂)
        ]
      ]

  -- The live price is none where it cannot be fetched.
  unfoldable pub create_crypto_payment :
      ℕ
      → Option c.N
      → String
      → CreateCryptoPaymentDto
      → c.billing.State
      → BillingOutcome (Pending c.N)
  create_crypto_payment now live tenant_id dto s = elim (find (λ p. p.id === dto.plan_id) plans) [
    | none ↦ (err business_rule, s)
    | some plan ↦ if plan.price == 0 then (err business_rule, s) else (elim (c.wallet_address) [
      | none ↦ (err external_service, s)
      | some address ↦
          if truthy address
          then store_pending tenant_id (pending_of now live tenant_id address plan.price dto) s
          else (err external_service, s)
    ])
  ]

  -- The answer of `getCryptoPaymentStatus`.
  unfoldable pub get_crypto_payment_status :
      ℕ → String → c.billing.State → BillingOutcome (Option (Pending c.N))
  get_crypto_payment_status now tenant_id s =
      let (r, s₁) = get_billing_info tenant_id s in
      elim r [
        | err e ↦ (err e, s₁)
        | ok b ↦ elim (b.metadata.pending_crypto_payment) [
          | none ↦ (ok none, s₁)
          | some p ↦
              if ltb p.expires_at now
              then (elim (update_info tenant_id (with_pending none b) s₁) [
                | none ↦ (err record_missing, s₁)
                | some (x, s₂) ↦ (ok none, s₂)
              ])
              else (ok (some p), s₁)
        ]
      ]

  abbrev pub with_confirmed : ℕ → String → Pending c.N → Info → Info → Info
  with_confirmed now tx_hash p b r = record r {
    plan = c.upper p.plan_id;
    status = "ACTIVE";
    current_period_end = some (now + period_ms p.billing_cycle);
    metadata = record b.metadata {
      pending_crypto_payment = none;
      last_crypto_payment = some (record { payment = p; confirmed_at = now; tx_hash = tx_hash });
    };
  }

  unfoldable pub admin_confirm_crypto_payment :
      ℕ → ConfirmCryptoPaymentDto → c.billing.State → BillingOutcome (Pending c.N)
  admin_confirm_crypto_payment now dto s = elim (find_by_tenant_id dto.tenant_id s) [
    | none ↦ (err not_found, s)
    | some b ↦ elim (b.metadata.pending_crypto_payment) [
      | none ↦ (err business_rule, s)
      | some p ↦ elim (update_info dto.tenant_id (with_confirmed now dto.tx_hash p b) s) [
        | none ↦ (err record_missing, s)
        | some (x, s₁) ↦ (ok p, s₁)
      ]
    ]
  ]

  -- `upsert` of the columns that `f` sets.
  unfoldable pub upsert_info : String → (Info → Info) → c.billing.State → BillingOutcome (Unit {0})
  upsert_info tenant_id f s = elim (find_by_tenant_id tenant_id s) [
    | none ↦ elim (c.billing.create (λ i. f (free_info tenant_id i)) s) [
      | none ↦ (err constraint_violation, s)
      | some (b, s₁) ↦ (ok tt, s₁)
    ]
    | some b ↦ elim (c.billing.update (c.billing.key b) f s) [
      | none ↦ (err record_missing, s)
      | some (x, s₁) ↦ (ok tt, s₁)
    ]
  ]

  unfoldable pub write_info : String → (Info → Info) → c.billing.State → BillingOutcome (Unit {0})
  write_info tenant_id f s = elim (update_info tenant_id f s) [
    | none ↦ (err record_missing, s)
    | some (x, s₁) ↦ (ok tt, s₁)
  ]
