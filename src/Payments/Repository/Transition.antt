-- ===== src/Payments/Repository/Transition.antt =====
-- What a transition does to the payments.
use crm_with_blockchain_rag.Base.{
  Bool-cases, Option, Option-cases, String, ap, arith, eq_iff, if◌then◌else◌, inl, inr, none, some,
  sym, true, ◌===◌, ◌∙◌, ◌≡◌, ◌≢◌,
}
use crm_with_blockchain_rag.Tenancy.Queries.{Env, passes, tenant_filter}
use crm_with_blockchain_rag.Tenancy.{Operation}
use crm_with_blockchain_rag.Payments.StateMachine.{PaymentStatus}
use crm_with_blockchain_rag.Payments.Types.{Payment, Client, Db}
use crm_with_blockchain_rag.Payments.Repository.{Updates, updated, find_by_id, transition}

module _ (c : Client) where
  -- The row of a payment.
  abbrev pub payment_at : String → Db c → Option Payment
  payment_at id s = c.payment.find_unique id s.payments

  updated-key :
      (to : PaymentStatus) (u : Updates) (p : Payment)
      → c.payment.key (updated to u p) ≡ c.payment.key p
  updated-key to u p = c.payment_keyed (updated to u p) ∙ sym (c.payment_keyed p)

  -- A transition that succeeds has updated the row of its key, which the tenant in the context owns,
  -- and nothing else.
  pub transition-some :
      (env : Env) (id : String) (to : PaymentStatus) (u : Updates) (s s' : Db c) (p' : Payment)
      → transition c env id to u s ≡ some (p', s')
      → (p : Payment) × (payment_at id s ≡ some p)
        × (p' ≡ updated to u p)
        × ((j : String)
            → payment_at j s' ≡ (if id === j then some (updated to u p) else payment_at j s))
        × (s' ≡ record s { payments = s'.payments })
        × (passes (tenant_filter env "Payment" Operation.update none) p.tenant_id ≡ true)
  unfolding transition
  transition-some env id to u s s' p' e = elim (Option-cases (payment_at id s)) [
    | inl missing ↦ ground arith
    | inr (p, found) ↦
        elim (Bool-cases (passes (tenant_filter env "Payment" Operation.update none) p.tenant_id)) [
          | inr foreign ↦ ground arith
          | inl owned ↦ elim (Option-cases (c.payment.update id (updated to u) s.payments)) [
            | inl failed ↦ ground arith
            | inr ((q, t), done) ↦
                let (r, at, same, after) =
                  c.payment.update_some id (updated to u) s.payments t q (updated-key to u) done in
                let rp : r ≡ p = ground arith in
                let qp : q ≡ p' = ground arith in
                let ts : t ≡ s'.payments = ground arith in
                (
                  p,
                  found,
                  sym qp ∙ same ∙ ap (updated to u) rp,
                  λ j. rw (← ts, ← rp) (after j),
                  ground arith,
                  owned,
                )
          ]
        ]
  ]

  -- Where no tenant is in the context, a transition of a payment that is there succeeds.
  pub transition_total :
      (env : Env) (id : String) (to : PaymentStatus) (u : Updates) (s : Db c) (p : Payment)
      → payment_at id s ≡ some p
      → passes (tenant_filter env "Payment" Operation.update none) p.tenant_id ≡ true
      → transition c env id to u s ≢ none
  unfolding transition
  transition_total env id to u s p found owned e =
      elim (Option-cases (c.payment.update id (updated to u) s.payments)) [
        | inl failed ↦ cc (c.payment.update_none id (updated to u) s.payments failed)
        | inr ((q, t), done) ↦ ground arith
      ]

  -- A payment that `findById` finds is the row of its key and has the identity asked for.
  pub find_by_id_sound :
      (env : Env) (id tenant_id : String) (s : Db c) (p : Payment)
      → find_by_id c env id tenant_id s ≡ some p
      → (p.id ≡ id)
        × (payment_at p.id s ≡ some p)
        × (passes (tenant_filter env "Payment" Operation.find_first (some tenant_id)) p.tenant_id
            ≡ true)
  unfolding find_by_id
  find_by_id_sound env id tenant_id s p e =
      let (holds, at) = c.payment.find_first_sound _ s.payments p e in
      ((eq_iff p.id id).0 (ground arith), rw (c.payment_keyed p) at at, ground arith)
