-- ===== src/Workers/Jobs/Redelivery.antt =====
-- A job of the payment queue that is delivered more than once.
use crm_with_blockchain_rag.Base.{Result-cases, arith, inl, inr, none, ok, refl, ◌≡◌}
use crm_with_blockchain_rag.Tenancy.{current_tenant}
use crm_with_blockchain_rag.Tenancy.Queries.{Env}
use crm_with_blockchain_rag.Payments.Types.{Client}
use crm_with_blockchain_rag.Payments.Service.{create_payment_intent}
use crm_with_blockchain_rag.Payments.Service.Idempotency.{create_payment_intent_again}
use crm_with_blockchain_rag.Wallets.Types.{WalletClient}
use crm_with_blockchain_rag.Workers.Jobs.{
  create_intent, CreateIntentJobPayload, JobDb, dto_of, handle_create_intent, process_job,
}

module _ (c : Client) where
  -- A job that creates a payment intent and succeeds outside a tenant context, as in the worker, may
  -- be delivered again, to a worker at any other time: it succeeds again and changes nothing, so
  -- that there is one payment for the job.
  pub process_job-again :
      (w : WalletClient) (env env' : Env) (job : CreateIntentJobPayload) (s s' : JobDb c w)
      → current_tenant env.store ≡ none
      → process_job c w env (create_intent job) s ≡ (ok tt, s')
      → process_job c w env' (create_intent job) s' ≡ (ok tt, s')
  unfolding process_job handle_create_intent
  process_job-again w env env' job s s' outside e =
      elim (Result-cases (create_payment_intent c env job.tenant_id (dto_of job) s.rail).0) [
        | inr (x, thrown) ↦ ground arith
        | inl (p, made) ↦
            let first : create_payment_intent c env job.tenant_id (dto_of job) s.rail
                ≡ (ok p, s'.rail) =
              ground arith in
            let again =
              (create_payment_intent_again c env env' job.tenant_id (dto_of job) (dto_of job) s.rail
                s'.rail p (inl outside) first refl).0 in
            ground arith
      ]
