-- ===== src/Payments/Service/Detection.antt =====
-- The calls that the workers make, outside any tenant context.
use crm_with_blockchain_rag.Base.{
  Option, Option-cases, String, arith, eq_iff, inl, inr, none, ok, some, ℕ, ◌≡◌, ◌≢◌,
}
use crm_with_blockchain_rag.Tenancy.Queries.{Env, tenant_filter}
use crm_with_blockchain_rag.Tenancy.{Operation, current_tenant, all_operations}
use crm_with_blockchain_rag.Payments.Types.{Payment, Client, Db}
use crm_with_blockchain_rag.Payments.Repository.{find_by_id}
use crm_with_blockchain_rag.Payments.Repository.Transition.{payment_at, find_by_id_sound}
use crm_with_blockchain_rag.Payments.Service.{
  TxDetected, handle_tx_detected, handle_confirmation_update,
}

-- Without a tenant in the context, a filter passes as it is.
pub unscoped_filter :
    (env : Env) (model : String) (op : Operation) (filter : Option String)
    → current_tenant env.store ≡ none
    → tenant_filter env model op filter ≡ filter
unfolding all_operations
unscoped_filter env model op filter h = ground arith

module _ (c : Client) where
  -- No payment of the table belongs to the empty tenant.
  abbrev pub HasTenants : Db c → Type 0
  HasTenants s = (id : String) (p : Payment) → payment_at c id s ≡ some p → p.tenant_id ≢ ""

  worker_finds_nothing :
      (env : Env) (id : String) (s : Db c)
      → current_tenant env.store ≡ none
      → HasTenants s
      → find_by_id c env id "" s ≡ none
  worker_finds_nothing env id s h tenants = elim (Option-cases (find_by_id c env id "" s)) [
    | inl missing ↦ missing
    | inr (p, found) ↦
        let (_, at, owner) = find_by_id_sound c env id "" s p found in
        let empty : p.tenant_id ≡ "" =
          (eq_iff p.tenant_id "").0
            (rw (unscoped_filter env "Payment" Operation.find_first (some "") h) at owner) in
        absurd (tenants p.id p at empty)
  ]

  -- Outside a tenant context, as in the workers that make these calls, a detected transaction and a
  -- confirmation update leave the whole state as it was, since both look the payment up under the
  -- empty tenant: no payment that has a tenant is ever confirmed or settled by them.
  pub worker_calls_idle :
      (env : Env) (d : TxDetected) (id : String) (n : ℕ) (s : Db c)
      → current_tenant env.store ≡ none
      → HasTenants s
      → (handle_tx_detected c env d s ≡ (ok tt, s))
        × (handle_confirmation_update c env id n s ≡ (ok tt, s))
  unfolding handle_tx_detected handle_confirmation_update
  worker_calls_idle env d id n s h tenants =
      let none_d = worker_finds_nothing env d.payment_id s h tenants in
      let none_n = worker_finds_nothing env id s h tenants in (ground arith, ground arith)
