-- ===== src/Payments/Service/Idempotency.antt =====
-- What an idempotency key stands for, from the first payment intent on.
use crm_with_blockchain_rag.Base.{
  Bool-cases, Option-cases, String, ap, arith, eq_iff, err, inl, inr, none, ok, refl, some, sym,
  ◌===◌, ◌∙◌, ◌≡◌, ◌≢◌, ◌⊎◌,
}
use crm_with_blockchain_rag.Tenancy.{current_tenant, all_operations}
use crm_with_blockchain_rag.Tenancy.Queries.{Env, row_tenant}
use crm_with_blockchain_rag.Payments.Types.{Payment, Client, Db, conflict}
use crm_with_blockchain_rag.Payments.Repository.{new_payment, create, find_by_idempotency_key}
use crm_with_blockchain_rag.Payments.Service.{CreatePaymentDto, find_wallet, create_payment_intent}
use crm_with_blockchain_rag.Payments.Service.Intents.{intent_input, create_payment_intent_taken}

module _ (c : Client) where
  -- After a row is made under a key that was free, the row found under the key is this row.
  taken_by :
      (key : String) (row : String → Payment) (s s' : Db c) (p : Payment)
      → ((i : String) → (row i).id ≡ i)
      → ((i : String) → (row i).idempotency_key ≡ key)
      → find_by_idempotency_key c key s ≡ none
      → c.payment.create row s.payments ≡ some (p, s'.payments)
      → find_by_idempotency_key c key s' ≡ some p
  unfolding find_by_idempotency_key
  taken_by key row s s' p same_id same_key free made =
      let (whole, _, after) =
        c.payment.create_lem row s.payments s'.payments p (λ i. c.payment_keyed (row i) ∙ same_id i)
          made in
      let keyed : p.idempotency_key ≡ key =
        ap (λ x. x.idempotency_key) whole ∙ same_key (c.payment.key p) in
      let self = (eq_iff (c.payment.key p) (c.payment.key p)).1 refl in
      let held : c.payment.find_unique (c.payment.key p) s'.payments ≡ some p =
        ground (arith, after (c.payment.key p)) in
      elim (Option-cases (c.payment.find_first (λ x. x.idempotency_key === key) s'.payments)) [
        | inl missed ↦ absurd (
            c.payment.find_first_complete (λ x. x.idempotency_key === key) s'.payments
              (c.payment.key p) p held (ground (arith, eq_iff p.idempotency_key key)) missed)
        | inr (x, found) ↦
            let (holds, at) =
              c.payment.find_first_sound (λ y. y.idempotency_key === key) s'.payments x found in
            elim (Bool-cases (c.payment.key p === c.payment.key x)) [
              | inl same ↦ ground (arith, after (c.payment.key x))
              | inr apart ↦
                  let before : c.payment.find_unique (c.payment.key x) s.payments ≡ some x =
                    ground (arith, after (c.payment.key x)) in
                  absurd (
                    c.payment.find_first_complete (λ y. y.idempotency_key === key) s.payments
                      (c.payment.key x) x before holds free)
            ]
      ]

  own_row :
      (model t : String) (env : Env)
      → (current_tenant env.store ≡ none) ⊎ (current_tenant env.store ≡ some t)
      → row_tenant env model t ≡ t
  unfolding all_operations
  own_row model t env (inl outside) = ground (arith, outside)
  own_row model t env (inr inside) = ground (arith, inside)

  -- The payment that a successful call returns is the one found under its key from then on.
  keyed_by :
      (env : Env) (t : String) (dto : CreatePaymentDto) (s s' : Db c) (p : Payment)
      → (current_tenant env.store ≡ none) ⊎ (current_tenant env.store ≡ some t)
      → create_payment_intent c env t dto s ≡ (ok p, s')
      → (find_by_idempotency_key c dto.idempotency_key s' ≡ some p) × (p.tenant_id ≡ t)
  unfolding create_payment_intent create
  keyed_by env t dto s s' p where_called e =
      elim (Option-cases (find_by_idempotency_key c dto.idempotency_key s)) [
        | inr (x, found) ↦
            (ground (arith, eq_iff x.tenant_id t), ground (arith, eq_iff x.tenant_id t))
        | inl free ↦ elim (Option-cases (find_wallet c env dto.wallet_id t s)) [
          | inl missing ↦ ground arith
          | inr (w, there) ↦
              let row = new_payment env (intent_input c env t dto w) in
              elim (Option-cases (c.payment.create row s.payments)) [
                | inl refused ↦ ground arith
                | inr ((q, u), made) ↦
                    let done : c.payment.create row s.payments ≡ some (p, s'.payments) =
                      ground arith in
                    let (whole, _, _) =
                      c.payment.create_lem row s.payments s'.payments p
                        (λ i. c.payment_keyed (row i)) done in
                    (
                      taken_by dto.idempotency_key row s s' p (λ i. refl) (λ i. refl) free done,
                      ap (λ x. x.tenant_id) whole ∙ own_row "Payment" t env where_called,
                    )
              ]
        ]
      ]

  -- After a call that succeeded, in the context of its tenant or in none, its key stands for the
  -- payment that the call returned: a further call under the key, in whatever context and whatever
  -- else it asks for, returns this payment to its tenant and is refused as a conflict to every other,
  -- and changes nothing.
  pub create_payment_intent_again :
      (env env' : Env) (t : String) (dto dto' : CreatePaymentDto) (s s' : Db c) (p : Payment)
      → (current_tenant env.store ≡ none) ⊎ (current_tenant env.store ≡ some t)
      → create_payment_intent c env t dto s ≡ (ok p, s')
      → dto'.idempotency_key ≡ dto.idempotency_key
      → (create_payment_intent c env' t dto' s' ≡ (ok p, s'))
        × ((u : String) → u ≢ t → create_payment_intent c env' u dto' s' ≡ (err conflict, s'))
  create_payment_intent_again env env' t dto dto' s s' p where_called e same_key =
      let (found, owner) = keyed_by env t dto s s' p where_called e in
      let found' : find_by_idempotency_key c dto'.idempotency_key s' ≡ some p = rw same_key found in
      (
        (create_payment_intent_taken c env' t dto' s' p found').0 owner,
        λ u other.
            (create_payment_intent_taken c env' u dto' s' p found').1
              (λ same. other (sym same ∙ owner)),
      )
