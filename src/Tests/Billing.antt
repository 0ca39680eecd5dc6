-- ===== src/Tests/Billing.antt =====
-- crm-backend/src/modules/billing/billing.service.ts at concrete inputs.
use crm_with_blockchain_rag.Base.{
  [], arith, eq_iff, err, false, if◌then◌else◌, none, ok, refl, some, true, ℕ, ◌+◌, ◌<◌, ◌===◌, ◌∷◌,
  ◌≡◌, ◌≢◌, ◌≤◌,
}
use crm_with_blockchain_rag.Prisma.Memory.Instance.{memory}
use crm_with_blockchain_rag.Billing.Types.{
  BillingClient, BillingInfo, Pending, eth, annual, business_rule, CreateCryptoPaymentDto,
  ConfirmCryptoPaymentDto,
}
use crm_with_blockchain_rag.Billing.Service.{
  upsert_info, write_info, free_info, crypto_payment_ttl_ms, find_by_tenant_id,
  create_crypto_payment, get_crypto_payment_status, get_billing_info, update_info, store_pending,
}
use crm_with_blockchain_rag.Billing.Stripe.{
  Stripe, active_customer, deleted, StripeEvent, subscription_updated, charge_refunded,
  invoice_payment_failed, handle_event, handle_subscription_updated, handle_charge_refunded,
  handle_invoice, downgraded,
}
use crm_with_blockchain_rag.Billing.Stripe.Redelivery.{handle_event_again}
use crm_with_blockchain_rag.Billing.Rows.{SameRows}
use crm_with_blockchain_rag.Billing.Paypal.{
  PlanIds, Resource, activated, handle_paypal_webhook, handle_for_tenant,
  cancel_paypal_subscription,
}
use crm_with_blockchain_rag.Billing.Paypal.Redelivery.{handle_paypal_webhook_again}
use crm_with_blockchain_rag.Billing.Crypto.{
  UniqueTenants, create_crypto_payment-get_crypto_payment_status,
}

abbrev shop : BillingClient
shop = record {
  N = ℕ;
  fallback_price = 3_000;
  upper = λ t. if t === "pro" then "PRO" else "T1";
  first_eight = λ t. t;
  show = λ n. "7";
  in_eth = λ cents price. "0.316800";
  in_usd = λ cents. "950.40";
  wallet_address = some "0xabc";
  billing = memory (λ b. b.id);
  billing_keyed = λ b. refl;
}

abbrev first_row_of : BillingInfo ℕ
first_row_of = free_info shop "t1" "b1"

abbrev pro_for_a_year : CreateCryptoPaymentDto
pro_for_a_year = record { plan_id = "pro"; currency = eth; billing_cycle = annual }

abbrev start : shop.billing.State
start = record { rows = first_row_of ∷ []; supply = "b2" ∷ [] }

abbrev ordered : Pending ℕ
ordered = record {
  ref = "CRM-T1-7";
  plan_id = "pro";
  currency = eth;
  amount = "0.316800";
  amount_usd = 95_040;
  billing_cycle = annual;
  wallet_address = "0xabc";
  eth_price_usd = some 3_000;
  created_at = 7;
  expires_at = 86_400_007;
}

abbrev after_order : shop.billing.State
after_order = (create_crypto_payment shop 7 none "t1" pro_for_a_year start).1

order_pro : (create_crypto_payment shop 7 none "t1" pro_for_a_year start).0 ≡ ok ordered
unfolding create_crypto_payment store_pending get_billing_info update_info find_by_tenant_id
order_pro = refl

UniqueTenants-start : UniqueTenants shop start
UniqueTenants-start i j x y at at' same = ground (arith, eq_iff "b1" i, eq_iff "b1" j)

abbrev paid : ConfirmCryptoPaymentDto
paid = record { tenant_id = "t1"; tx_hash = "0xfeed" }

create_crypto_payment-get_crypto_payment_status_example :
    ((later : ℕ)
      → later ≤ 7 + crypto_payment_ttl_ms
      → get_crypto_payment_status shop later "t1" after_order ≡ (ok (some ordered), after_order))
    × ((later : ℕ) (q : Pending ℕ)
        → 7 + crypto_payment_ttl_ms < later
        → (get_crypto_payment_status shop later "t1" after_order).0 ≢ ok (some q))
create_crypto_payment-get_crypto_payment_status_example =
    create_crypto_payment-get_crypto_payment_status shop 7 none "t1" pro_for_a_year start ordered
      UniqueTenants-start order_pro

-- One customer of the tenant of the first row, and one price.
abbrev stripe : Stripe
stripe = record {
  retrieve = λ i. if i === "cus1" then some (active_customer (some "t1")) else some deleted;
  prices = ("starter", some "price_s") ∷ ("pro", some "price_p") ∷ [];
}

abbrev renewal : StripeEvent
renewal = subscription_updated (record {
  id = "sub1";
  customer = "cus2";
  metadata_tenant_id = some "t2";
  price_id = some "price_p";
  status = "active";
  current_period_end = some 5;
  cancel_at_period_end = false;
})

-- The first event of a tenant makes its row.
renewal_rows : (handle_event shop stripe renewal start).1.rows ≡ (
    record (free_info shop "t2" "b2") {
      stripe_subscription_id = some "sub1";
      stripe_customer_id = some "cus2";
      plan = "PRO";
      current_period_end = some 5_000;
    }
    ∷ first_row_of
    ∷ [])
unfolding handle_event handle_subscription_updated upsert_info find_by_tenant_id
renewal_rows = refl

-- A full refund takes the plan.
refund_rows :
    (handle_event shop stripe
      (charge_refunded (record { customer = some "cus1"; amount = 4_900; amount_refunded = 4_900 }))
      start).1.rows
    ≡ (downgraded shop stripe first_row_of ∷ [])
unfolding handle_event handle_charge_refunded write_info update_info find_by_tenant_id
refund_rows = refl

-- A failed payment shows in the status only.
failure_rows :
    (handle_event shop stripe (invoice_payment_failed (some "cus1")) start).1.rows
    ≡ (record first_row_of { status = "PAST_DUE" } ∷ [])
unfolding handle_event handle_invoice write_info update_info find_by_tenant_id
failure_rows = refl

handled_renewal : (handle_event shop stripe renewal start).0 ≡ ok tt
unfolding handle_event handle_subscription_updated upsert_info find_by_tenant_id
handled_renewal = refl

handle_event_again_example :
    let s' = (handle_event shop stripe renewal start).1 in
    ((handle_event shop stripe renewal s').0 ≡ ok tt)
    × SameRows shop s' (handle_event shop stripe renewal s').1
handle_event_again_example =
    handle_event_again shop stripe renewal start UniqueTenants-start handled_renewal

abbrev paypal_ids : PlanIds
paypal_ids = ("starter", none) ∷ ("pro", some "P-1") ∷ []

abbrev approved : Resource
approved = record {
  id = "I-1";
  custom_id = some "t1";
  subscriber_custom_id = none;
  plan_id = some "P-1";
  next_billing_time = some 77;
}

abbrev after_approval : shop.billing.State
after_approval = (handle_paypal_webhook shop paypal_ids true activated approved start).1

approval_rows : after_approval.rows ≡ (
    record first_row_of {
      paypal_subscription_id = some "I-1";
      plan = "PRO";
      current_period_end = some 77;
    }
    ∷ [])
unfolding handle_paypal_webhook handle_for_tenant upsert_info find_by_tenant_id
approval_rows = refl

-- A cancellation is refused where there is nothing to cancel.
cancellation_refused :
    (cancel_paypal_subscription shop paypal_ids true "t1" start).0 ≡ err business_rule
unfolding cancel_paypal_subscription get_billing_info find_by_tenant_id
cancellation_refused = refl

handled_approval : (handle_paypal_webhook shop paypal_ids true activated approved start).0 ≡ ok tt
unfolding handle_paypal_webhook handle_for_tenant upsert_info find_by_tenant_id
handled_approval = refl

handle_paypal_webhook_again_example :
    let s' = (handle_paypal_webhook shop paypal_ids true activated approved start).1 in
    ((handle_paypal_webhook shop paypal_ids true activated approved s').0 ≡ ok tt)
    × SameRows shop s' (handle_paypal_webhook shop paypal_ids true activated approved s').1
handle_paypal_webhook_again_example =
    handle_paypal_webhook_again shop paypal_ids activated approved start UniqueTenants-start
      handled_approval
