-- ===== src/Billing/Crypto.antt =====
-- A payment in crypto currency, from the intent to its confirmation.
use crm_with_blockchain_rag.Base.{
  Bool-cases, Option, Option-cases, Result-cases, String, ap, arith, eq_iff, find, inl, inr, none,
  ok, refl, some, subst, sym, true, truthy, ℕ, ◌+◌, ◌<◌, ◌===◌, ◌==◌, ◌∙◌, ◌≡◌, ◌≢◌, ◌≤◌,
}
use crm_with_blockchain_rag.Prisma.{===_refl}
use crm_with_blockchain_rag.Billing.Types.{BillingClient, Pending, CreateCryptoPaymentDto, plans}
use crm_with_blockchain_rag.Billing.Service.{
  find_by_tenant_id, update_info, Info, get_crypto_payment_status, get_billing_info, store_pending,
  create_info, free_info, with_pending, create_crypto_payment, crypto_payment_ttl_ms, pending_of,
}

module _ (c : BillingClient) where
  -- The constraint on the column `tenantId`.
  abbrev pub UniqueTenants : c.billing.State → Type 0
  UniqueTenants s =
      (i j : String) (x y : Info c)
      → c.billing.find_unique i s ≡ some x
      → c.billing.find_unique j s ≡ some y
      → x.tenant_id ≡ y.tenant_id
      → i ≡ j

  pub update_info_lem :
      (tenant_id : String) (f : Info c → Info c) (s s' : c.billing.State) (r : Info c)
      → UniqueTenants s
      → ((x : Info c) → ((f x).id ≡ x.id) × ((f x).tenant_id ≡ x.tenant_id))
      → update_info c tenant_id f s ≡ some (r, s')
      → (b : Info c) × (find_by_tenant_id c tenant_id s ≡ some b)
        × (find_by_tenant_id c tenant_id s' ≡ some (f b))
  unfolding update_info find_by_tenant_id
  update_info_lem tenant_id f s s' r unique keeps done =
      let p = λ (b : Info c). b.tenant_id === tenant_id in
      let keyed : (x : Info c) → c.billing.key (f x) ≡ c.billing.key x =
        λ x. c.billing_keyed (f x) ∙ (keeps x).0 ∙ sym (c.billing_keyed x) in
      elim (Option-cases (c.billing.find_first p s)) [
        | inl missing ↦ ground arith
        | inr (b, found) ↦
            let (own, at) = c.billing.find_first_sound p s b found in
            let updated : c.billing.update (c.billing.key b) f s ≡ some (r, s') = ground arith in
            let (b', at', same, after) =
              c.billing.update_some (c.billing.key b) f s s' r keyed updated in
            let is_b : b' ≡ b = ground arith in
            let now_at : c.billing.find_unique (c.billing.key b) s' ≡ some (f b) =
              ground (arith, after (c.billing.key b), ===_refl (c.billing.key b)) in
            let own' : p (f b) ≡ true =
              ground
                (arith, eq_iff b.tenant_id tenant_id, eq_iff (f b).tenant_id tenant_id, keeps b) in
            (
              b,
              found,
              elim (Option-cases (c.billing.find_first p s')) [
                | inl missed ↦
                    absurd (
                      c.billing.find_first_complete p s' (c.billing.key b) (f b) now_at own' missed)
                | inr (x, found') ↦
                    let (theirs, there) = c.billing.find_first_sound p s' x found' in
                    elim (Bool-cases (c.billing.key b === c.billing.key x)) [
                      | inl one ↦ ground (arith, after (c.billing.key x))
                      | inr two ↦
                          let before : c.billing.find_unique (c.billing.key x) s ≡ some x =
                            ground (arith, after (c.billing.key x)) in
                          let alike : b.tenant_id ≡ x.tenant_id =
                            ground
                              (arith, eq_iff b.tenant_id tenant_id, eq_iff x.tenant_id tenant_id) in
                          let one = unique _ _ b x at before alike in
                          ground (arith, eq_iff (c.billing.key b) (c.billing.key x))
                    ]
              ],
            )
      ]

  -- Two rows of a tenant do not come from a row that is created where the tenant has none.
  pub create-UniqueTenants :
      (tenant_id : String) (row : String → Info c) (s s' : c.billing.State) (b : Info c)
      → UniqueTenants s
      → ((i : String) → ((row i).id ≡ i) × ((row i).tenant_id ≡ tenant_id))
      → find_by_tenant_id c tenant_id s ≡ none
      → c.billing.create row s ≡ some (b, s')
      → UniqueTenants s' × (find_by_tenant_id c tenant_id s' ≡ some b)
  unfolding find_by_tenant_id
  create-UniqueTenants tenant_id row s s' b unique shape absent made =
      let p = λ (x : Info c). x.tenant_id === tenant_id in
      let keyed : (i : String) → c.billing.key (row i) ≡ i =
        λ i. c.billing_keyed (row i) ∙ (shape i).0 in
      let (is_free, fresh, after) = c.billing.create_lem row s s' b keyed made in
      let own : b.tenant_id ≡ tenant_id =
        ap (λ x. x.tenant_id) is_free ∙ (shape (c.billing.key b)).1 in
      let alone : (j : String) (y : Info c)
          → c.billing.find_unique j s ≡ some y
          → y.tenant_id ≢ tenant_id =
        λ j y at same.
          c.billing.find_first_complete p s j y at ((eq_iff y.tenant_id tenant_id).1 same) absent in
      let unique' : UniqueTenants s' = λ i j x y at_i at_j same.
        elim (Bool-cases (c.billing.key b === i)) [
          | inl is_i ↦ elim (Bool-cases (c.billing.key b === j)) [
            | inl is_j ↦ ground (arith, eq_iff (c.billing.key b) i, eq_iff (c.billing.key b) j)
            | inr not_j ↦
                let is_b : x ≡ b = ground (arith, after i) in
                let y_at : c.billing.find_unique j s ≡ some y = ground (arith, after j) in
                absurd (alone j y y_at (sym same ∙ ap (λ z. z.tenant_id) is_b ∙ own))
          ]
          | inr not_i ↦
              let x_at : c.billing.find_unique i s ≡ some x = ground (arith, after i) in
              elim (Bool-cases (c.billing.key b === j)) [
                | inl is_j ↦
                    let is_b : y ≡ b = ground (arith, after j) in
                    absurd (alone i x x_at (same ∙ ap (λ z. z.tenant_id) is_b ∙ own))
                | inr not_j ↦
                    let y_at : c.billing.find_unique j s ≡ some y = ground (arith, after j) in
                    unique i j x y x_at y_at same
              ]
        ] in
      let here : c.billing.find_unique (c.billing.key b) s' ≡ some b =
        ground (arith, after (c.billing.key b), ===_refl (c.billing.key b)) in
      let own' : p b ≡ true = (eq_iff b.tenant_id tenant_id).1 own in
      (
        unique',
        elim (Option-cases (c.billing.find_first p s')) [
          | inl missed ↦
              absurd (c.billing.find_first_complete p s' (c.billing.key b) b here own' missed)
          | inr (x, found) ↦
              let (theirs, there) = c.billing.find_first_sound p s' x found in
              let alike : b.tenant_id ≡ x.tenant_id =
                own ∙ sym ((eq_iff x.tenant_id tenant_id).0 theirs) in
              let one = unique' _ _ b x here there alike in ground arith
        ],
      )

  get_billing_info_lem :
      (tenant_id : String) (s s' : c.billing.State) (b : Info c)
      → UniqueTenants s
      → get_billing_info c tenant_id s ≡ (ok b, s')
      → UniqueTenants s' × (find_by_tenant_id c tenant_id s' ≡ some b)
  unfolding get_billing_info create_info
  get_billing_info_lem tenant_id s s' b unique e =
      elim (Option-cases (find_by_tenant_id c tenant_id s)) [
        | inr (x, found) ↦
            let same : s ≡ s' = ground arith in (subst UniqueTenants same unique, ground arith)
        | inl missing ↦ elim (Option-cases (create_info c tenant_id s)) [
          | inl refused ↦ ground arith
          | inr ((x, t), made) ↦
              let same : t ≡ s' = ground arith in
              let is_b : x ≡ b = ground arith in
              let (u, found) =
                create-UniqueTenants tenant_id (free_info c tenant_id) s t x unique
                  (λ i. (refl, refl)) missing made in
              (subst UniqueTenants same u, ground arith)
        ]
      ]

  store_pending_lem :
      (tenant_id : String) (p q : Pending c.N) (s : c.billing.State)
      → UniqueTenants s
      → (store_pending c tenant_id p s).0 ≡ ok q
      → let s' = (store_pending c tenant_id p s).1 in
        (b : Info c) × (q ≡ p)
        × (find_by_tenant_id c tenant_id s' ≡ some (with_pending c (some p) b b))
  unfolding store_pending
  store_pending_lem tenant_id p q s unique done =
      elim (Result-cases (get_billing_info c tenant_id s).0) [
        | inr (e, refused) ↦ ground arith
        | inl (b, got) ↦
            let t = (get_billing_info c tenant_id s).1 in
            let (unique', found) =
              get_billing_info_lem tenant_id s t b unique (ap (λ r. (r, t)) got) in
            elim (Option-cases (update_info c tenant_id (with_pending c (some p) b) t)) [
              | inl gone ↦ ground arith
              | inr ((x, t'), updated) ↦
                  let (b', found', kept) =
                    update_info_lem tenant_id (with_pending c (some p) b) t t' x unique'
                      (λ y. (refl, refl)) updated in
                  let is_b : b' ≡ b = ground arith in (b, ground arith, ground arith)
            ]
      ]

  -- Where the table holds no two rows of a tenant, the intent that is created is the one that the
  -- status shows, until 24 hours after its creation; showing it changes nothing. From then on the
  -- status shows none.
  pub create_crypto_payment-get_crypto_payment_status :
      (now : ℕ) (live : Option c.N) (tenant_id : String) (dto : CreateCryptoPaymentDto)
      (s : c.billing.State) (p : Pending c.N)
      → UniqueTenants s
      → (create_crypto_payment c now live tenant_id dto s).0 ≡ ok p
      → let s' = (create_crypto_payment c now live tenant_id dto s).1 in
        ((later : ℕ)
          → later ≤ now + crypto_payment_ttl_ms
          → get_crypto_payment_status c later tenant_id s' ≡ (ok (some p), s'))
        × ((later : ℕ) (q : Pending c.N)
            → now + crypto_payment_ttl_ms < later
            → (get_crypto_payment_status c later tenant_id s').0 ≢ ok (some q))
  unfolding create_crypto_payment get_crypto_payment_status get_billing_info
  create_crypto_payment-get_crypto_payment_status now live tenant_id dto s p unique done =
      elim (Option-cases (find (λ q. q.id === dto.plan_id) plans)) [
        | inl unknown ↦ ground arith
        | inr (plan, listed) ↦ elim (Bool-cases (plan.price == 0)) [
          | inl free ↦ ground arith
          | inr paid ↦ elim (Option-cases (c.wallet_address)) [
            | inl unset ↦ ground arith
            | inr (address, set) ↦ elim (Bool-cases (truthy address)) [
              | inr empty ↦ ground arith
              | inl filled_in ↦
                  let made = pending_of c now live tenant_id address plan.price dto in
                  let e : create_crypto_payment c now live tenant_id dto s
                      ≡ store_pending c tenant_id made s =
                    ground arith in
                  let (b, is_made, found) =
                    store_pending_lem tenant_id made p s unique (sym (ap (λ r. r.0) e) ∙ done) in
                  let due : made.expires_at ≡ now + crypto_payment_ttl_ms = refl in
                  (λ later early. ground arith, λ later q late. ground arith)
            ]
          ]
        ]
      ]
