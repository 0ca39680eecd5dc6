-- ===== src/Billing/Paypal.antt =====
-- The webhook of crm-backend/src/modules/billing/billing.service.ts for the events of PayPal, and the
-- cancellation of a subscription there. What PayPal answers is a parameter, as are the plans of the
-- environment. A date of PayPal is its number of milliseconds.
pub mod Redelivery
use crm_with_blockchain_rag.Base.{
  Bool, List, Option, String, err, false, filled, find, if◌then◌else◌, none, ok, some, true, truthy,
  ℕ, ◌===◌,
}
use crm_with_blockchain_rag.Billing.Types.{
  BillingClient, BillingError, business_rule, external_service, record_missing,
}
use crm_with_blockchain_rag.Billing.Service.{
  BillingOutcome, Info, get_billing_info, upsert_info, write_info,
}

-- The members of an event's resource that the handler reads.
pub record Resource : Type 0 where
  pub id : String
  pub custom_id : Option String
  pub subscriber_custom_id : Option String
  pub plan_id : Option String
  pub next_billing_time : Option ℕ

pub data PaypalEvent : Type 0 where
  activated payment_completed cancelled payment_failed plan_revised : PaypalEvent
  unhandled_event : PaypalEvent

-- `PAYPAL_PLAN_ID_MAP`
abbrev pub PlanIds : Type 0
PlanIds = List (String × Option String)

-- `custom_id` is the tenant of a subscription.
abbrev pub event_tenant : Resource → String
event_tenant x = elim (x.custom_id) [
  | some t ↦ t
  | none ↦ elim (x.subscriber_custom_id) [ some t ↦ t | none ↦ "" ]
]

-- `===` on identities that may be absent.
abbrev pub same_id : Option String → Option String → Bool
same_id none none = true
same_id (some a) (some b) = a === b
same_id _ _ = false

module _ (c : BillingClient) (ids : PlanIds) where
  abbrev pub get_plan_from_paypal_subscription : Option String → String
  get_plan_from_paypal_subscription plan_id = elim (find (λ e. same_id e.1 plan_id) ids) [
    | none ↦ "PRO"
    | some e ↦ c.upper e.0
  ]

  abbrev pub activated_info : Resource → Info c → Info c
  activated_info x b = record b {
    paypal_subscription_id = some x.id;
    plan = get_plan_from_paypal_subscription x.plan_id;
    status = "ACTIVE";
    current_period_end = x.next_billing_time;
  }

  -- A column that is set to nothing keeps its value.
  abbrev pub period_end : Resource → Info c → Option ℕ
  period_end x b = elim (x.next_billing_time) [ none ↦ b.current_period_end | some n ↦ some n ]

  abbrev pub renewed_info : Resource → Info c → Info c
  renewed_info x b = record b { status = "ACTIVE"; current_period_end = period_end x b }

  abbrev pub cancelled_info : Info c → Info c
  cancelled_info b = record b {
    paypal_subscription_id = none;
    plan = "FREE";
    status = "CANCELLED";
    cancel_at_period_end = false;
    current_period_end = none;
  }

  abbrev pub past_due_info : Info c → Info c
  past_due_info b = record b { status = "PAST_DUE" }

  abbrev pub revised_info : Resource → Info c → Info c
  revised_info x b = record b {
    plan = get_plan_from_paypal_subscription x.plan_id;
    current_period_end = period_end x b;
  }

  -- What each case of the handler does for a tenant.
  unfoldable pub handle_for_tenant :
      PaypalEvent → Resource → String → c.billing.State → BillingOutcome c (Unit {0})
  handle_for_tenant activated x t s = upsert_info c t (activated_info x) s
  handle_for_tenant payment_completed x t s = write_info c t (renewed_info x) s
  handle_for_tenant cancelled x t s = write_info c t cancelled_info s
  handle_for_tenant payment_failed x t s = write_info c t past_due_info s
  handle_for_tenant plan_revised x t s = elim (filled x.plan_id) [
    | none ↦ (ok tt, s)
    | some _ ↦ write_info c t (revised_info x) s
  ]
  handle_for_tenant unhandled_event x t s = (ok tt, s)

  -- The part of `handlePayPalWebhook` that follows the verification: every case asks for a tenant.
  unfoldable pub handle_paypal_webhook :
      Bool → PaypalEvent → Resource → c.billing.State → BillingOutcome c (Unit {0})
  handle_paypal_webhook verified event x s =
      if verified
      then (if truthy (event_tenant x)
          then handle_for_tenant event x (event_tenant x) s
          else (ok tt, s))
      else (err business_rule, s)

  -- `answered` is false where a call of PayPal throws.
  unfoldable pub cancel_paypal_subscription :
      Bool → String → c.billing.State → BillingOutcome c (Unit {0})
  cancel_paypal_subscription answered tenant_id s =
      let (r, s₁) = get_billing_info c tenant_id s in
      elim r [
        | err e ↦ (err e, s₁)
        | ok b ↦ elim (filled b.paypal_subscription_id) [
          | none ↦ (err business_rule, s₁)
          | some _ ↦
              if answered
              then write_info c tenant_id cancelled_info s₁
              else (err external_service, s₁)
        ]
      ]
