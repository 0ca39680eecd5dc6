-- ===== src/Payments/Service/Expiry.antt =====
-- The sweep that expires stale payments.
use crm_with_blockchain_rag.Base.{
  All, List, Option-cases, Result, [], ap, arith, inl, inr, length, map, none, ok, push_all, refl,
  some, subst, suc, sym, true, zero, ℕ, ◌∙◌, ◌∷◌, ◌≡◌, ◌⊎◌,
}
use crm_with_blockchain_rag.Tenancy.Queries.{Env, passes, row_tenant, tenant_filter}
use crm_with_blockchain_rag.Prisma.{===_refl}
use crm_with_blockchain_rag.Tenancy.{Operation, all_operations}
use crm_with_blockchain_rag.Payments.StateMachine.{PaymentStatus, pending, expired, status_eq}
use crm_with_blockchain_rag.Payments.Types.{Payment, PaymentEvent, Client, Db}
use crm_with_blockchain_rag.Payments.Repository.{
  no_updates, updated, transition, take, is_expired_pending, find_expired_pending, append_event,
  Updates,
}
use crm_with_blockchain_rag.Payments.Repository.Transition.{
  payment_at, transition-some, transition_total,
}
use crm_with_blockchain_rag.Payments.Service.{
  expire_one, expire_all, expire_stale_pending_payments, PaymentError,
}
use crm_with_blockchain_rag.Payments.Service.Changes.{Changes, Changes-refl, transition-Changes}

-- A status stays, or a pending payment expires.
abbrev pub MayExpire : PaymentStatus → PaymentStatus → Type 0
MayExpire a b = (a ≡ b) ⊎ ((a ≡ pending) × (b ≡ expired))

MayExpire-trans : (a b d : PaymentStatus) → MayExpire a b → MayExpire b d → MayExpire a d
MayExpire-trans a b d (inl e) h = rw e h
MayExpire-trans a b d (inr (p, q)) (inl e) = inr (p, sym e ∙ q)
MayExpire-trans a b d (inr (p, q)) (inr (r, u)) = inr (p, u)

same_filter :
    (env : Env)
    → tenant_filter env "Payment" Operation.find_many none
      ≡ tenant_filter env "Payment" Operation.update none
unfolding all_operations
same_filter env = ground arith

All-take {ℓ κ} : {A : Type ℓ} (P : A → Type κ) (n : ℕ) (xs : List A) → All P xs → All P (take n xs)
All-take P zero xs h = tt
All-take P (suc n) [] h = tt
All-take P (suc n) (x ∷ xs) h = (h.0, All-take P n xs h.1)

module _ (c : Client) (env : Env) where
  -- A payment of the list is there, pending or expired already, and the context may write it.
  abbrev Due : c.payment.State → Payment → Type 0
  Due t p =
      (x : Payment) × (c.payment.find_unique p.id t ≡ some x)
      × ((x.status ≡ pending) ⊎ (x.status ≡ expired))
      × (passes (tenant_filter env "Payment" Operation.update none) x.tenant_id ≡ true)

  -- The payment is stored as expired.
  abbrev pub IsExpired : c.payment.State → Payment → Type 0
  IsExpired t p = (x : Payment) × (c.payment.find_unique p.id t ≡ some x) × (x.status ≡ expired)

  Changes-trans :
      (t u v : c.payment.State)
      → Changes c MayExpire t u
      → Changes c MayExpire u v
      → Changes c MayExpire t v
  Changes-trans t u v h k id p at =
      let (q, atq, qi, qt, qa, qc, pq) = h id p at in
      let (r, atr, ri, rt, ra, rc, qr) = k id q atq in
      (r, atr, ri ∙ qi, rt ∙ qt, ra ∙ qa, rc ∙ qc, MayExpire-trans p.status q.status r.status pq qr)

  Changes-Due : (t u : c.payment.State) (p : Payment) → Changes c MayExpire t u → Due t p → Due u p
  Changes-Due t u p h (x, at, status, owned) =
      let (y, aty, _, yt, _, _, moved) = h p.id x at in (y, aty, after moved status, rw yt owned)
    where
      after :
          {a b : PaymentStatus}
          → MayExpire a b
          → (a ≡ pending) ⊎ (a ≡ expired)
          → (b ≡ pending) ⊎ (b ≡ expired)
      after (inl e) (inl k) = inl (sym e ∙ k)
      after (inl e) (inr k) = inr (sym e ∙ k)
      after (inr (_, e)) k = inr e

  Changes-IsExpired :
      (t u : c.payment.State) (p : Payment)
      → Changes c MayExpire t u
      → IsExpired t p
      → IsExpired u p
  Changes-IsExpired t u p h (x, at, e) =
      let (y, aty, _, _, _, _, moved) = h p.id x at in (y, aty, after moved e)
    where
      after : {a b : PaymentStatus} → MayExpire a b → a ≡ expired → b ≡ expired
      after (inl e) k = sym e ∙ k
      after (inr (_, e)) k = e

  -- The audit event of an expiry, under the tenant of the payment unless the context has another.
  abbrev pub expiry_event : Payment → PaymentEvent
  expiry_event p = record {
    payment_id = p.id;
    tenant_id = row_tenant env "PaymentEvent" p.tenant_id;
    from_status = pending;
    to_status = expired;
    event = "payment_expired";
  }

  -- What the expiry of one due payment does.
  record OneDone (p : Payment) (s : Db c) (r : Result PaymentError (Unit {0})) (s' : Db c)
      : Type 0 where
    succeeds : r ≡ ok tt
    changes : Changes c MayExpire s.payments s'.payments
    is_expired : IsExpired s'.payments p
    audited : s'.events ≡ expiry_event p ∷ s.events

  abbrev stale_update : Updates
  stale_update = record no_updates { failed_at = some env.now }

  legal :
      (p x y : Payment) (s : Db c)
      → payment_at c p.id s ≡ some x
      → (x.status ≡ pending) ⊎ (x.status ≡ expired)
      → payment_at c p.id s ≡ some y
      → MayExpire y.status expired
  legal p x y s at (inl e) aty = let same : y ≡ x = cc (at, aty) in rw same (inr (e, refl))
  legal p x y s at (inr e) aty = let same : y ≡ x = cc (at, aty) in rw same (inl e)

  expire_one_lem :
      (p : Payment) (s : Db c)
      → Due s.payments p
      → OneDone p s (expire_one c env p s).0 (expire_one c env p s).1
  unfolding expire_one append_event
  expire_one_lem p s (x, at, status, owned) =
      elim (Option-cases (transition c env p.id expired stale_update s)) [
        | inl missing ↦
            absurd (transition_total c env p.id expired stale_update s x at owned missing)
        | inr ((q, u), e) ↦
            let (r, found, same, after, whole, _) =
              transition-some c env p.id expired stale_update s u q e in
            let state : u.payments ≡ (expire_one c env p s).1.payments = ground arith in
            record {
              succeeds = ground arith;
              changes =
                  subst (λ t. Changes c MayExpire s.payments t) state
                    (transition-Changes c MayExpire env p.id expired stale_update s u q
                      (λ a. inl refl) (λ y aty. legal p x y s at status aty) e);
              is_expired =
                  subst (λ t. IsExpired t p) state
                    (updated expired stale_update r, rw (after p.id, ===_refl p.id) refl, refl);
              audited = ground (arith, whole);
            }
      ]

  -- What the expiry of a list of due payments does.
  record AllDone (ps : List Payment) (s : Db c) (r : Result PaymentError (Unit {0})) (s' : Db c)
      : Type 0 where
    succeeds : r ≡ ok tt
    changes : Changes c MayExpire s.payments s'.payments
    are_expired : All (IsExpired s'.payments) ps
    audited : s'.events ≡ push_all (map expiry_event ps) s.events

  All-Due :
      (t u : c.payment.State) (ps : List Payment)
      → Changes c MayExpire t u
      → All (Due t) ps
      → All (Due u) ps
  All-Due t u [] h a = tt
  All-Due t u (p ∷ ps) h a = (Changes-Due t u p h a.0, All-Due t u ps h a.1)

  expire_all_lem :
      (ps : List Payment) (s : Db c)
      → All (Due s.payments) ps
      → AllDone ps s (expire_all c env ps s).0 (expire_all c env ps s).1
  unfolding expire_all
  expire_all_lem [] s a = record {
    succeeds = refl;
    changes = Changes-refl c MayExpire s.payments (λ x. inl refl);
    are_expired = tt;
    audited = refl;
  }
  expire_all_lem (p ∷ ps) s a =
      let one = expire_one_lem p s a.0 in
      let u = (expire_one c env p s).1 in
      let rest = expire_all_lem ps u (All-Due s.payments u.payments ps one.changes a.1) in
      record {
        succeeds = ground (arith, one.succeeds, rest.succeeds);
        changes = Changes-trans s.payments u.payments _ one.changes rest.changes;
        are_expired =
            (Changes-IsExpired u.payments _ p rest.changes one.is_expired, rest.are_expired);
        audited = rest.audited ∙ ap (λ l. push_all (map expiry_event ps) l) one.audited;
      }

  stale_Due :
      (s : Db c) (ps : List Payment)
      → All
          (λ p.
            (is_expired_pending env p ≡ true)
            × (c.payment.find_unique (c.payment.key p) s.payments ≡ some p))
          ps
      → All (Due s.payments) ps
  stale_Due s [] a = tt
  stale_Due s (p ∷ ps) ((e, at), rest) = (
    (
      p,
      rw (c.payment_keyed p) at at,
      inl (is_pending p.status (ground arith)),
      rw (← same_filter env) (ground arith),
    ),
    stale_Due s ps rest,
  )
    where
      is_pending : (a : PaymentStatus) → status_eq a pending ≡ true → a ≡ pending
      is_pending pending h = refl
      is_pending _ h = cc

  -- The sweep succeeds and returns the number of stale payments that it found; each of these is then
  -- stored as expired, and exactly their audit events were written, in their order, each of its
  -- payment's expiry; no payment has changed otherwise than from pending to expired.
  pub expire_stale_pending_payments_lem :
      (s : Db c)
      → let stale = find_expired_pending c env s in
        let (r, s') = expire_stale_pending_payments c env s in
        (r ≡ ok (length stale))
        × All (IsExpired s'.payments) stale
        × Changes c MayExpire s.payments s'.payments
        × (s'.events ≡ push_all (map expiry_event stale) s.events)
  unfolding expire_stale_pending_payments find_expired_pending
  expire_stale_pending_payments_lem s =
      let due =
        stale_Due s _
          (All-take _ 200 _ (c.payment.find_many_sound (is_expired_pending env) s.payments)) in
      let done = expire_all_lem _ s due in
      (ground (arith, done.succeeds), done.are_expired, done.changes, done.audited)
