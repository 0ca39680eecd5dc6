-- ===== src/Billing/Paypal/Redelivery.antt =====
-- Events that PayPal delivers more than once.
use crm_with_blockchain_rag.Base.{
  Bool-cases, Option-cases, String, arith, filled, inl, inr, ok, refl, true, truthy, ◌≡◌,
}
use crm_with_blockchain_rag.Billing.Types.{BillingClient}
use crm_with_blockchain_rag.Billing.Crypto.{UniqueTenants}
use crm_with_blockchain_rag.Billing.Rows.{SameRows, Columns, write_info_again, upsert_info_again}
use crm_with_blockchain_rag.Billing.Paypal.{
  PlanIds, Resource, PaypalEvent, activated, payment_completed, cancelled, payment_failed,
  plan_revised, unhandled_event, event_tenant, handle_for_tenant, handle_paypal_webhook,
  activated_info, renewed_info, cancelled_info, past_due_info, revised_info,
}

module _ (c : BillingClient) (ids : PlanIds) where
  renewed_info-Columns : (x : Resource) → Columns c (renewed_info c ids x)
  renewed_info-Columns x b = (
    refl,
    refl,
    elim (Option-cases (x.next_billing_time)) [ inl e ↦ ground arith | inr (n, e) ↦ ground arith ],
  )

  revised_info-Columns : (x : Resource) → Columns c (revised_info c ids x)
  revised_info-Columns x b = (
    refl,
    refl,
    elim (Option-cases (x.next_billing_time)) [ inl e ↦ ground arith | inr (n, e) ↦ ground arith ],
  )

  handle_for_tenant_again :
      (event : PaypalEvent) (x : Resource) (t : String) (s : c.billing.State)
      → UniqueTenants c s
      → (handle_for_tenant c ids event x t s).0 ≡ ok tt
      → let s' = (handle_for_tenant c ids event x t s).1 in
        ((handle_for_tenant c ids event x t s').0 ≡ ok tt)
        × SameRows c s' (handle_for_tenant c ids event x t s').1
  unfolding handle_for_tenant
  handle_for_tenant_again activated x t s unique done =
      upsert_info_again c t (activated_info c ids x) s (λ b. (refl, refl, refl)) unique done
  handle_for_tenant_again payment_completed x t s unique done =
      let (_, again, same) =
        write_info_again c t (renewed_info c ids x) s (renewed_info-Columns x) unique done in
      (again, same)
  handle_for_tenant_again cancelled x t s unique done =
      let (_, again, same) =
        write_info_again c t (cancelled_info c ids) s (λ b. (refl, refl, refl)) unique done in
      (again, same)
  handle_for_tenant_again payment_failed x t s unique done =
      let (_, again, same) =
        write_info_again c t (past_due_info c ids) s (λ b. (refl, refl, refl)) unique done in
      (again, same)
  handle_for_tenant_again plan_revised x t s unique done = elim (Option-cases (filled x.plan_id)) [
    | inl unnamed ↦ (ground arith, λ j. ground arith)
    | inr (i, named) ↦
        let (_, again, same) =
          write_info_again c t (revised_info c ids x) s (revised_info-Columns x) unique
            (ground arith) in
        (ground arith, ground arith)
  ]
  handle_for_tenant_again unhandled_event x t s unique done = (refl, λ j. refl)

  -- Where the table holds no two rows of a tenant, a verified event of any type that was handled
  -- without an error is handled without one when it is delivered again at once, and then every row
  -- stays as it is.
  pub handle_paypal_webhook_again :
      (event : PaypalEvent) (x : Resource) (s : c.billing.State)
      → UniqueTenants c s
      → (handle_paypal_webhook c ids true event x s).0 ≡ ok tt
      → let s' = (handle_paypal_webhook c ids true event x s).1 in
        ((handle_paypal_webhook c ids true event x s').0 ≡ ok tt)
        × SameRows c s' (handle_paypal_webhook c ids true event x s').1
  unfolding handle_paypal_webhook
  handle_paypal_webhook_again event x s unique done = elim (Bool-cases (truthy (event_tenant x))) [
    | inr nobody ↦ (ground arith, λ j. ground arith)
    | inl somebody ↦
        let (again, same) =
          handle_for_tenant_again event x (event_tenant x) s unique (ground arith) in
        (ground arith, ground arith)
  ]
