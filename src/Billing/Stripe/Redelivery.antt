-- ===== src/Billing/Stripe/Redelivery.antt =====
-- Events that Stripe delivers more than once.
use crm_with_blockchain_rag.Base.{
  Bool-cases, Option, Option-cases, String, arith, filled, inl, inr, leb, ok, refl, some, truthy,
  ◌&&◌, ◌≡◌,
}
use crm_with_blockchain_rag.Billing.Types.{BillingClient}
use crm_with_blockchain_rag.Billing.Rows.{
  SameRows, found_tenant, upsert_info_again, write_info_again,
}
use crm_with_blockchain_rag.Billing.Service.{write_info, find_by_tenant_id}
use crm_with_blockchain_rag.Billing.Crypto.{UniqueTenants}
use crm_with_blockchain_rag.Billing.Stripe.{
  Stripe, handle_invoice, handle_charge_refunded, handle_event, tenant_id_of, Charge,
  handle_subscription_updated, with_status, downgraded, handle_subscription_deleted, StripeEvent,
  subscription_updated, subscription_deleted, invoice_payment_failed, invoice_payment_succeeded,
  charge_refunded, unhandled, subscribed, unsubscribed,
}

module _ (c : BillingClient) (k : Stripe) where
  handle_invoice_again :
      (status : String) (customer : Option String) (s : c.billing.State)
      → UniqueTenants c s
      → (handle_invoice c k status customer s).0 ≡ ok tt
      → let s' = (handle_invoice c k status customer s).1 in
        ((handle_invoice c k status customer s').0 ≡ ok tt)
        × SameRows c s' (handle_invoice c k status customer s').1
  unfolding handle_invoice
  handle_invoice_again status customer s unique done = elim (Option-cases (filled customer)) [
    | inl nobody ↦ (ground arith, λ j. ground arith)
    | inr (customer_id, named) ↦ elim (Option-cases (k.retrieve customer_id)) [
      | inl down ↦ ground arith
      | inr (who, answered) ↦ elim (Option-cases (find_by_tenant_id c (tenant_id_of who) s)) [
        | inl missing ↦ (ground arith, λ j. ground arith)
        | inr (b, found) ↦
            let own : b.tenant_id ≡ tenant_id_of who =
              found_tenant c (tenant_id_of who) s b found in
            let f = with_status c k status in
            let written : (write_info c b.tenant_id f s).0 ≡ ok tt = ground arith in
            let ((b', found', now), again, same) =
              write_info_again c b.tenant_id f s (λ x. (refl, refl, refl)) unique written in
            let is_b : b' ≡ b = ground arith in
            let now_b : find_by_tenant_id c (tenant_id_of who) (write_info c b.tenant_id f s).1
                ≡ some (f b) =
              ground arith in
            (ground arith, ground arith)
      ]
    ]
  ]

  handle_charge_refunded_again :
      (x : Charge) (s : c.billing.State)
      → UniqueTenants c s
      → (handle_charge_refunded c k x s).0 ≡ ok tt
      → let s' = (handle_charge_refunded c k x s).1 in
        ((handle_charge_refunded c k x s').0 ≡ ok tt)
        × SameRows c s' (handle_charge_refunded c k x s').1
  unfolding handle_charge_refunded
  handle_charge_refunded_again x s unique done = elim (Option-cases (filled x.customer)) [
    | inl nobody ↦ (ground arith, λ j. ground arith)
    | inr (customer_id, named) ↦ elim (Option-cases (k.retrieve customer_id)) [
      | inl down ↦ ground arith
      | inr (who, answered) ↦
          elim (Bool-cases (truthy (tenant_id_of who) && leb x.amount x.amount_refunded)) [
            | inr partly ↦ (ground arith, λ j. ground arith)
            | inl fully ↦
                let written : (write_info c (tenant_id_of who) (downgraded c k) s).0 ≡ ok tt =
                  ground arith in
                let (_, again, same) =
                  write_info_again c (tenant_id_of who) (downgraded c k) s (λ y. (refl, refl, refl))
                    unique written in
                (ground arith, ground arith)
          ]
    ]
  ]

  -- Where the table holds no two rows of a tenant, an event of any type that was handled without an
  -- error is handled without one when it is delivered again at once, and then every row stays as it
  -- is.
  pub handle_event_again :
      (event : StripeEvent) (s : c.billing.State)
      → UniqueTenants c s
      → (handle_event c k event s).0 ≡ ok tt
      → let s' = (handle_event c k event s).1 in
        ((handle_event c k event s').0 ≡ ok tt) × SameRows c s' (handle_event c k event s').1
  unfolding handle_event handle_subscription_updated handle_subscription_deleted
  handle_event_again (subscription_updated x) s unique done =
      elim (Option-cases (filled x.metadata_tenant_id)) [
        | inl nobody ↦ (ground arith, λ j. ground arith)
        | inr (tenant_id, named) ↦
            let again =
              upsert_info_again c tenant_id (subscribed c k x) s (λ y. (refl, refl, refl)) unique
                (ground arith) in
            (ground arith, ground arith)
      ]
  handle_event_again (subscription_deleted x) s unique done =
      elim (Option-cases (filled x.metadata_tenant_id)) [
        | inl nobody ↦ (ground arith, λ j. ground arith)
        | inr (tenant_id, named) ↦
            let again =
              upsert_info_again c tenant_id (unsubscribed c k) s (λ y. (refl, refl, refl)) unique
                (ground arith) in
            (ground arith, ground arith)
      ]
  handle_event_again (invoice_payment_succeeded customer) s unique done =
      handle_invoice_again "ACTIVE" customer s unique done
  handle_event_again (invoice_payment_failed customer) s unique done =
      handle_invoice_again "PAST_DUE" customer s unique done
  handle_event_again (charge_refunded x) s unique done =
      handle_charge_refunded_again x s unique done
  handle_event_again unhandled s unique done = (refl, λ j. refl)
