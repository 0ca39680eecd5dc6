-- ===== src/Billing/Stripe.antt =====
-- The webhook of crm-backend/src/modules/billing/billing.service.ts for the events of Stripe. What
-- Stripe says about a customer is a parameter, as is the plan that a price stands for in the
-- environment. Times of Stripe are numbers of seconds.
pub mod Redelivery
use crm_with_blockchain_rag.Base.{
  Bool, List, Option, Result, String, err, false, filled, find, if◌then◌else◌, leb, none, ok, some,
  truthy, ℕ, ◌&&◌, ◌*◌, ◌===◌, ◌==◌,
}
use crm_with_blockchain_rag.Billing.Types.{
  BillingClient, external_service, BillingError, record_missing, constraint_violation,
}
use crm_with_blockchain_rag.Billing.Service.{
  upsert_info, write_info, BillingOutcome, Info, find_by_tenant_id, update_info, free_info,
}

pub record Subscription : Type 0 where
  pub id : String
  pub customer : String
  pub metadata_tenant_id : Option String
  pub price_id : Option String
  pub status : String
  pub current_period_end : Option ℕ
  pub cancel_at_period_end : Bool

pub record Charge : Type 0 where
  pub customer : Option String
  pub amount : ℕ
  pub amount_refunded : ℕ

-- The types that `handleWebhook` tells apart, an invoice by its customer.
pub data StripeEvent : Type 0 where
  subscription_updated subscription_deleted : Subscription → StripeEvent
  invoice_payment_succeeded invoice_payment_failed : Option String → StripeEvent
  charge_refunded : Charge → StripeEvent
  unhandled : StripeEvent

-- What `customers.retrieve` returns.
pub data Customer : Type 0 where
  deleted : Customer
  active_customer : Option String → Customer

-- `none` where the call of Stripe throws.
pub record Stripe : Type 0 where
  pub retrieve : String → Option Customer
  pub prices : List (String × Option String)

abbrev pub tenant_id_of : Customer → String
tenant_id_of deleted = ""
tenant_id_of (active_customer m) = elim m [ none ↦ "" | some t ↦ t ]

abbrev pub get_plan_from_subscription : Stripe → Subscription → String
get_plan_from_subscription k x = elim (x.price_id) [
  | none ↦ "free"
  | some price ↦
      if truthy price
      then (elim (find (λ e. elim (e.1) [ none ↦ false | some i ↦ i === price ]) k.prices) [
        | none ↦ "pro"
        | some e ↦ e.0
      ])
      else "free"
]

-- A time of Stripe as a date; zero is none.
abbrev pub date_of : Option ℕ → Option ℕ
date_of none = none
date_of (some n) = if n == 0 then none else some (n * 1000)

module _ (c : BillingClient) (k : Stripe) where
  abbrev pub WebhookOutcome : Type 0
  WebhookOutcome = Result BillingError (Unit {0}) × c.billing.State

  abbrev pub subscribed : Subscription → Info c → Info c
  subscribed x b = record b {
    stripe_subscription_id = some x.id;
    stripe_customer_id = some x.customer;
    plan = c.upper (get_plan_from_subscription k x);
    status = if x.status === "active" then "ACTIVE" else c.upper x.status;
    current_period_end = date_of x.current_period_end;
    cancel_at_period_end = x.cancel_at_period_end;
  }

  abbrev pub downgraded : Info c → Info c
  downgraded b = record b {
    plan = "FREE";
    status = "CANCELLED";
    cancel_at_period_end = false;
    current_period_end = none;
  }

  abbrev pub unsubscribed : Info c → Info c
  unsubscribed b = record (downgraded b) { stripe_subscription_id = none }

  abbrev pub with_status : String → Info c → Info c
  with_status status b = record b { status = status }

  unfoldable pub handle_subscription_updated : Subscription → c.billing.State → WebhookOutcome
  handle_subscription_updated x s = elim (filled x.metadata_tenant_id) [
    | none ↦ (ok tt, s)
    | some tenant_id ↦ upsert_info c tenant_id (subscribed x) s
  ]

  unfoldable pub handle_subscription_deleted : Subscription → c.billing.State → WebhookOutcome
  handle_subscription_deleted x s = elim (filled x.metadata_tenant_id) [
    | none ↦ (ok tt, s)
    | some tenant_id ↦ upsert_info c tenant_id unsubscribed s
  ]

  -- `handleInvoicePaymentSucceeded` and `handleInvoicePaymentFailed`, by the status that they set.
  unfoldable pub handle_invoice : String → Option String → c.billing.State → WebhookOutcome
  handle_invoice status customer s = elim (filled customer) [
    | none ↦ (ok tt, s)
    | some customer_id ↦ elim (k.retrieve customer_id) [
      | none ↦ (err external_service, s)
      | some found ↦ elim (find_by_tenant_id c (tenant_id_of found) s) [
        | none ↦ (ok tt, s)
        | some b ↦ write_info c b.tenant_id (with_status status) s
      ]
    ]
  ]

  unfoldable pub handle_charge_refunded : Charge → c.billing.State → WebhookOutcome
  handle_charge_refunded x s = elim (filled x.customer) [
    | none ↦ (ok tt, s)
    | some customer_id ↦ elim (k.retrieve customer_id) [
      | none ↦ (err external_service, s)
      | some found ↦
          if truthy (tenant_id_of found) && leb x.amount x.amount_refunded
          then write_info c (tenant_id_of found) downgraded s
          else (ok tt, s)
    ]
  ]

  unfoldable pub handle_event : StripeEvent → c.billing.State → WebhookOutcome
  handle_event (subscription_updated x) s = handle_subscription_updated x s
  handle_event (subscription_deleted x) s = handle_subscription_deleted x s
  handle_event (invoice_payment_succeeded customer) s = handle_invoice "ACTIVE" customer s
  handle_event (invoice_payment_failed customer) s = handle_invoice "PAST_DUE" customer s
  handle_event (charge_refunded x) s = handle_charge_refunded x s
  handle_event unhandled s = (ok tt, s)

  -- The end of `handleWebhook`, of an event whose signature holds: every error is the provider's.
  unfoldable pub handle_webhook : StripeEvent → c.billing.State → WebhookOutcome
  handle_webhook event s =
      let (r, s₁) = handle_event event s in
      elim r [ err e ↦ (err external_service, s₁) | ok _ ↦ (ok tt, s₁) ]
