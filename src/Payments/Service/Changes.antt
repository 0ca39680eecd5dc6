-- ===== src/Payments/Service/Changes.antt =====
-- Which status changes the calls of the payments service make.
use crm_with_blockchain_rag.Base.{
  Bool-cases, Option-cases, String, arith, eq_iff, false, inl, inr, ltb, none, ok, refl, some,
  subst, sym, true, ℕ, ◌===◌, ◌≡◌, ◌⊎◌,
}
use crm_with_blockchain_rag.Tenancy.Queries.{Env}
use crm_with_blockchain_rag.Payments.StateMachine.{
  PaymentStatus, confirming, completed, assert_transition,
}
use crm_with_blockchain_rag.Payments.StateMachine.Lifecycle.{Move, assert_transition_iff}
use crm_with_blockchain_rag.Payments.Types.{Payment, Client, Db}
use crm_with_blockchain_rag.Payments.Repository.{
  Updates, no_updates, updated, transition, append_event, find_by_id,
}
use crm_with_blockchain_rag.Payments.Repository.Transition.{
  payment_at, transition-some, find_by_id_sound,
}
use crm_with_blockchain_rag.Payments.Service.{
  TxDetected, record_detection, settle_payment, detection, handle_tx_detected,
  handle_confirmation_update, handle_refund, refunded, status_eq,
}

-- A status stays or moves along an arrow of the lifecycle.
abbrev pub MayMove : PaymentStatus → PaymentStatus → Type 0
MayMove a b = (a ≡ b) ⊎ Move a b

confirming_stays :
    (a : PaymentStatus) → status_eq a confirming ≡ true → assert_transition a confirming ≡ ok tt
unfolding assert_transition
confirming_stays confirming h = refl
confirming_stays _ h = cc

module _ (c : Client) where
  -- Every payment is still there, with the identity, tenant, amount and chain that it had, and its
  -- status has changed as `R` allows.
  abbrev pub Changes :
      (PaymentStatus → PaymentStatus → Type 0) → c.payment.State → c.payment.State → Type 0
  Changes R t t' =
      (id : String) (p : Payment)
      → c.payment.find_unique id t ≡ some p
      → (p' : Payment) × (c.payment.find_unique id t' ≡ some p')
        × (p'.id ≡ p.id)
        × (p'.tenant_id ≡ p.tenant_id)
        × (p'.amount_usdc ≡ p.amount_usdc)
        × (p'.chain ≡ p.chain)
        × R p.status p'.status

  pub Changes-refl :
      (R : PaymentStatus → PaymentStatus → Type 0) (t : c.payment.State)
      → ((a : PaymentStatus) → R a a)
      → Changes R t t
  Changes-refl R t h id p at = (p, at, refl, refl, refl, refl, h p.status)

  MayMove-stay : (t t' : c.payment.State) → t' ≡ t → Changes MayMove t t'
  MayMove-stay t t' same =
      subst (λ x. Changes MayMove t x) (sym same) (Changes-refl MayMove t (λ a. inl refl))

  -- A transition changes the status of its payment alone.
  pub transition-Changes :
      (R : PaymentStatus → PaymentStatus → Type 0) (env : Env) (id : String) (to : PaymentStatus)
      (u : Updates) (s s' : Db c) (q : Payment)
      → ((a : PaymentStatus) → R a a)
      → ((p : Payment) → payment_at c id s ≡ some p → R p.status to)
      → transition c env id to u s ≡ some (q, s')
      → Changes R s.payments s'.payments
  transition-Changes R env id to u s s' q stays legal e j p at =
      let (r, found, _, after, _, _) = transition-some c env id to u s s' q e in
      elim (Bool-cases (id === j)) [
        | inl same ↦
            let here : id ≡ j = (eq_iff id j).0 same in
            let rp : r ≡ p = cc (found, at, here) in
            (
              updated to u p,
              rw (after j, same, rp) refl,
              refl,
              refl,
              refl,
              refl,
              legal p (rw here at),
            )
        | inr other ↦ (p, rw (after j, other) at, refl, refl, refl, refl, stays p.status)
      ]

  module _ (env : Env) where
    accepted :
        (id : String) (to : PaymentStatus) (s : Db c) (p : Payment)
        → payment_at c id s ≡ some p
        → assert_transition p.status to ≡ ok tt
        → (q : Payment) → payment_at c id s ≡ some q
        → MayMove q.status to
    accepted id to s p at h q at' =
        let same : q ≡ p = cc (at, at') in rw same ((assert_transition_iff p.status to).0 h)

    -- The payments after a transition, or as they were where it throws.
    abbrev after : String → PaymentStatus → Updates → Db c → c.payment.State
    after id to u s = elim (transition c env id to u s) [
      | none ↦ s.payments
      | some (q, t) ↦ t.payments
    ]

    -- A call has left the payments alone, or has made one transition that the check passed.
    abbrev Touches : Payment → PaymentStatus → Updates → Db c → Db c → Type 0
    Touches p to u s s' =
        (s'.payments ≡ s.payments)
        ⊎ ((assert_transition p.status to ≡ ok tt) × (s'.payments ≡ after p.id to u s))

    Touches-Changes :
        (p : Payment) (to : PaymentStatus) (u : Updates) (s s' : Db c)
        → payment_at c p.id s ≡ some p
        → Touches p to u s s'
        → Changes MayMove s.payments s'.payments
    Touches-Changes p to u s s' at (inl same) = MayMove-stay s.payments s'.payments same
    Touches-Changes p to u s s' at (inr (h, moved)) =
        elim (Option-cases (transition c env p.id to u s)) [
          | inl missing ↦ MayMove-stay s.payments s'.payments (ground arith)
          | inr ((q, t), e) ↦
              let same : t.payments ≡ s'.payments = ground arith in
              subst (λ x. Changes MayMove s.payments x) same
                (transition-Changes MayMove env p.id to u s t q (λ a. inl refl)
                  (accepted p.id to s p at h) e)
        ]

    tx_detected-Touches :
        (d : TxDetected) (s : Db c) (p : Payment)
        → find_by_id c env d.payment_id "" s ≡ some p
        → Touches p confirming (detection env d) s (handle_tx_detected c env d s).1
    unfolding handle_tx_detected record_detection append_event
    tx_detected-Touches d s p e = ground arith

    -- Detecting a transaction changes no status but along the lifecycle, and no payment's identity,
    -- tenant, amount or chain.
    pub handle_tx_detected-Changes :
        (d : TxDetected) (s : Db c)
        → Changes MayMove s.payments (handle_tx_detected c env d s).1.payments
    unfolding handle_tx_detected
    handle_tx_detected-Changes d s = elim (Option-cases (find_by_id c env d.payment_id "" s)) [
      | inl missing ↦ MayMove-stay s.payments _ (ground arith)
      | inr (p, found) ↦
          Touches-Changes p confirming (detection env d) s (handle_tx_detected c env d s).1
            (find_by_id_sound c env d.payment_id "" s p found).1 (tx_detected-Touches d s p found)
    ]

    settle_payment-Touches :
        (p : Payment) (s : Db c)
        → Touches p completed
            (record no_updates { confirmed_at = some env.now })
            s
            (settle_payment c env p s).1
    unfolding settle_payment append_event
    settle_payment-Touches p s = ground arith

    counts-Touches :
        (id : String) (n : ℕ) (s : Db c) (p : Payment)
        → find_by_id c env id "" s ≡ some p
        → status_eq p.status confirming ≡ true
        → ltb n p.required_confirmations ≡ true
        → Touches p confirming
            (record no_updates { confirmations = some n })
            s
            (handle_confirmation_update c env id n s).1
    unfolding handle_confirmation_update
    counts-Touches id n s p e here few = ground (arith, confirming_stays p.status here)

    settles-Touches :
        (id : String) (n : ℕ) (s : Db c) (p : Payment)
        → find_by_id c env id "" s ≡ some p
        → status_eq p.status confirming ≡ true
        → ltb n p.required_confirmations ≡ false
        → Touches p completed
            (record no_updates { confirmed_at = some env.now })
            s
            (handle_confirmation_update c env id n s).1
    unfolding handle_confirmation_update
    settles-Touches id n s p e here enough =
        rw (e, handle_confirmation_update) (rw (here, enough) (settle_payment-Touches p s))

    -- A confirmation update, whether it stores the count or settles, changes no status but along the
    -- lifecycle, and no payment's identity, tenant, amount or chain.
    pub handle_confirmation_update-Changes :
        (id : String) (n : ℕ) (s : Db c)
        → Changes MayMove s.payments (handle_confirmation_update c env id n s).1.payments
    unfolding handle_confirmation_update
    handle_confirmation_update-Changes id n s = elim (Option-cases (find_by_id c env id "" s)) [
      | inl missing ↦ MayMove-stay s.payments _ (ground arith)
      | inr (p, found) ↦
          let at = (find_by_id_sound c env id "" s p found).1 in
          elim (Bool-cases (status_eq p.status confirming)) [
            | inr other ↦ MayMove-stay s.payments _ (ground arith)
            | inl here ↦ elim (Bool-cases (ltb n p.required_confirmations)) [
              | inl few ↦
                  Touches-Changes p confirming (record no_updates { confirmations = some n }) s
                    (handle_confirmation_update c env id n s).1 at
                    (counts-Touches id n s p found here few)
              | inr enough ↦
                  Touches-Changes p completed (record no_updates { confirmed_at = some env.now }) s
                    (handle_confirmation_update c env id n s).1 at
                    (settles-Touches id n s p found here enough)
            ]
          ]
    ]

    refund-Touches :
        (id tenant_id : String) (s : Db c) (p : Payment)
        → find_by_id c env id tenant_id s ≡ some p
        → Touches p refunded no_updates s (handle_refund c env id tenant_id s).1
    unfolding handle_refund append_event
    refund-Touches id tenant_id s p e = ground arith

    -- A refund changes no status but along the lifecycle, and no payment's identity, tenant, amount or
    -- chain.
    pub handle_refund-Changes :
        (id tenant_id : String) (s : Db c)
        → Changes MayMove s.payments (handle_refund c env id tenant_id s).1.payments
    unfolding handle_refund
    handle_refund-Changes id tenant_id s = elim (Option-cases (find_by_id c env id tenant_id s)) [
      | inl missing ↦ MayMove-stay s.payments _ (ground arith)
      | inr (p, found) ↦
          Touches-Changes p refunded no_updates s (handle_refund c env id tenant_id s).1
            (find_by_id_sound c env id tenant_id s p found).1
            (refund-Touches id tenant_id s p found)
    ]
