-- ===== src/Billing/Rows.antt =====
-- Changes of a billing row that are made twice.
use crm_with_blockchain_rag.Base.{
  Option-cases, String, ap, arith, eq_iff, inl, inr, ok, some, sym, ◌===◌, ◌∙◌, ◌≡◌,
}
use crm_with_blockchain_rag.Billing.Types.{BillingClient}
use crm_with_blockchain_rag.Billing.Service.{
  Info, find_by_tenant_id, update_info, free_info, upsert_info, write_info,
}
use crm_with_blockchain_rag.Billing.Crypto.{UniqueTenants, update_info_lem, create-UniqueTenants}

module _ (c : BillingClient) where
  -- The same row under every key.
  abbrev pub SameRows : c.billing.State → c.billing.State → Type 0
  SameRows s s' = (j : String) → c.billing.find_unique j s' ≡ c.billing.find_unique j s

  -- A change of columns: it keeps what a row is found by, and a second time it changes nothing.
  abbrev pub Columns : (Info c → Info c) → Type 0
  Columns f = (x : Info c) → ((f x).id ≡ x.id) × ((f x).tenant_id ≡ x.tenant_id) × (f (f x) ≡ f x)

  update_again :
      (tenant_id : String) (f : Info c → Info c) (s : c.billing.State) (x : Info c)
      → Columns f
      → find_by_tenant_id c tenant_id s ≡ some x
      → f x ≡ x
      → (r : Info c) × (s' : c.billing.State) × (c.billing.update (c.billing.key x) f s
          ≡ some (r, s'))
        × SameRows s s'
  unfolding find_by_tenant_id
  update_again tenant_id f s x columns found settled =
      let p = λ (b : Info c). b.tenant_id === tenant_id in
      let (own, at) = c.billing.find_first_sound p s x found in
      let keyed : (y : Info c) → c.billing.key (f y) ≡ c.billing.key y =
        λ y. c.billing_keyed (f y) ∙ (columns y).0 ∙ sym (c.billing_keyed y) in
      elim (Option-cases (c.billing.update (c.billing.key x) f s)) [
        | inl missed ↦ let gone = c.billing.update_none (c.billing.key x) f s missed in ground arith
        | inr ((r, s'), updated) ↦
            let (y, at', same, after) =
              c.billing.update_some (c.billing.key x) f s s' r keyed updated in
            let is_x : y ≡ x = ground arith in
            (r, s', updated, λ j. ground (arith, after j, eq_iff (c.billing.key x) j))
      ]

  pub write_info_again :
      (tenant_id : String) (f : Info c → Info c) (s : c.billing.State)
      → Columns f
      → UniqueTenants c s
      → (write_info c tenant_id f s).0 ≡ ok tt
      → let s' = (write_info c tenant_id f s).1 in
        ((b : Info c) × (find_by_tenant_id c tenant_id s ≡ some b)
          × (find_by_tenant_id c tenant_id s' ≡ some (f b)))
        × ((write_info c tenant_id f s').0 ≡ ok tt)
        × SameRows s' (write_info c tenant_id f s').1
  unfolding write_info update_info
  write_info_again tenant_id f s columns unique done =
      elim (Option-cases (update_info c tenant_id f s)) [
        | inl missed ↦ ground arith
        | inr ((r, t), updated) ↦
            let (b, found, now) =
              update_info_lem c tenant_id f s t r unique (λ x. ((columns x).0, (columns x).1))
                updated in
            let (r', t', again, same) =
              update_again tenant_id f t (f b) columns now (columns b).2 in
            ((b, found, ground arith), ground arith, ground arith)
      ]

  pub found_tenant :
      (tenant_id : String) (s : c.billing.State) (b : Info c)
      → find_by_tenant_id c tenant_id s ≡ some b
      → b.tenant_id ≡ tenant_id
  unfolding find_by_tenant_id
  found_tenant tenant_id s b found =
      (eq_iff b.tenant_id tenant_id).0
        (c.billing.find_first_sound (λ x. x.tenant_id === tenant_id) s b found).0

  update_info_of :
      (tenant_id : String) (f : Info c → Info c) (s : c.billing.State) (x : Info c)
      (r : Info c × c.billing.State)
      → find_by_tenant_id c tenant_id s ≡ some x
      → c.billing.update (c.billing.key x) f s ≡ some r
      → update_info c tenant_id f s ≡ some r
  unfolding update_info
  update_info_of tenant_id f s x r found updated = ground arith

  pub upsert_info_again :
      (tenant_id : String) (f : Info c → Info c) (s : c.billing.State)
      → Columns f
      → UniqueTenants c s
      → (upsert_info c tenant_id f s).0 ≡ ok tt
      → let s' = (upsert_info c tenant_id f s).1 in
        ((upsert_info c tenant_id f s').0 ≡ ok tt) × SameRows s' (upsert_info c tenant_id f s').1
  unfolding upsert_info
  upsert_info_again tenant_id f s columns unique done =
      elim (Option-cases (find_by_tenant_id c tenant_id s)) [
        | inl missing ↦
            let row : String → Info c = λ i. f (free_info c tenant_id i) in
            let shape : (i : String) → ((row i).id ≡ i) × ((row i).tenant_id ≡ tenant_id) =
              λ i. ((columns (free_info c tenant_id i)).0, (columns (free_info c tenant_id i)).1) in
            elim (Option-cases (c.billing.create row s)) [
              | inl refused ↦ ground arith
              | inr ((b, t), made) ↦
                  let (unique', now) =
                    create-UniqueTenants c tenant_id row s t b unique shape missing made in
                  let keyed : (i : String) → c.billing.key (row i) ≡ i =
                    λ i. c.billing_keyed (row i) ∙ (shape i).0 in
                  let is_row : b ≡ row (c.billing.key b) =
                    (c.billing.create_lem row s t b keyed made).0 in
                  let settled : f b ≡ b =
                    ap f is_row
                    ∙ (columns (free_info c tenant_id (c.billing.key b))).2
                    ∙ sym is_row in
                  let (r', t', again, same) = update_again tenant_id f t b columns now settled in
                  (ground arith, ground arith)
            ]
        | inr (x, found) ↦ elim (Option-cases (c.billing.update (c.billing.key x) f s)) [
          | inl missed ↦ ground arith
          | inr ((r, t), updated) ↦
              let at_once : update_info c tenant_id f s ≡ some (r, t) =
                update_info_of tenant_id f s x (r, t) found updated in
              let (b, found', now) =
                update_info_lem c tenant_id f s t r unique (λ y. ((columns y).0, (columns y).1))
                  at_once in
              let (r', t', again, same) =
                update_again tenant_id f t (f b) columns now (columns b).2 in
              (ground arith, ground arith)
        ]
      ]
