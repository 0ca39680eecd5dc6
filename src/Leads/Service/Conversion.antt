-- ===== src/Leads/Service/Conversion.antt =====
-- The conversion of a lead.
use crm_with_blockchain_rag.Base.{
  Option, Option-cases, String, ap, arith, eq_iff, false, filled, inl, inr, none, ok, refl, some,
  sym, true, ◌===◌, ◌∙◌, ◌≡◌, ◌≢◌,
}
use crm_with_blockchain_rag.Prisma.{===_refl, create-finds, create-keeps}
use crm_with_blockchain_rag.LeadScoring.{converted}
use crm_with_blockchain_rag.Tenancy.{Operation}
use crm_with_blockchain_rag.Tenancy.Queries.{tenant_filter, passes, row_tenant, Env}
use crm_with_blockchain_rag.Tenancy.Scoped.{
  find_scoped_complete, update_scoped, find_scoped_sound, update_scoped-some,
}
use crm_with_blockchain_rag.Leads.Types.{Lead, Contact, LeadDeal, LeadClient, leads, LeadDb}
use crm_with_blockchain_rag.Leads.Service.{
  ConvertLeadDto, is_converted, as_converted, contact_of, deal_of, clashes, create_contact,
  find_lead, update_lead, convert_deal, convert_rows, convert,
}

module _ (c : LeadClient) (env : Env) where
  pub find_lead_sound :
      (id : String) (s : LeadDb c) (l : Lead)
      → find_lead c env id s ≡ some l
      → (c.lead.find_unique id s.leads ≡ some l) × (l.id ≡ id)
  unfolding find_lead
  find_lead_sound id s l e =
      let (at, here, _) =
        find_scoped_sound (leads c) env (λ x. x.id === id) id s.leads l
          (λ x h. ground (arith, c.lead_keyed x, eq_iff x.id id)) e in
      (at, (eq_iff l.id id).0 here)

  pub find_lead_complete :
      (id : String) (s : LeadDb c) (l : Lead)
      → c.lead.find_unique id s.leads ≡ some l
      → passes (tenant_filter env "Lead" Operation.find_first none) l.tenant_id ≡ true
      → find_lead c env id s ≡ some l
  unfolding find_lead
  find_lead_complete id s l at owned =
      let key_l = c.lead.find_unique_key id s.leads l at in
      find_scoped_complete (leads c) env (λ x. x.id === id) id s.leads l
        (λ x h. ground (arith, c.lead_keyed x, eq_iff x.id id)) at
        (ground (arith, eq_iff l.id id, c.lead_keyed l)) owned

  -- The tenant of a lead that is found passes the filter of the context.
  pub find_lead_owned :
      (id : String) (s : LeadDb c) (l : Lead)
      → find_lead c env id s ≡ some l
      → passes (tenant_filter env "Lead" Operation.find_first none) l.tenant_id ≡ true
  unfolding find_lead
  find_lead_owned id s l e =
      let (_, _, owned) =
        find_scoped_sound (leads c) env (λ x. x.id === id) id s.leads l
          (λ x h. ground (arith, c.lead_keyed x, eq_iff x.id id)) e in
      owned

  -- An update of a lead changes that lead and nothing else.
  pub update_lead-some :
      (id : String) (f : Lead → Lead) (s s' : LeadDb c) (q : Lead)
      → ((x : Lead) → (f x).id ≡ x.id)
      → update_lead c env id f s ≡ some (q, s')
      → (l : Lead) × (c.lead.find_unique id s.leads ≡ some l)
        × (q ≡ f l)
        × (c.lead.find_unique id s'.leads ≡ some q)
        × ((j : String) → id ≢ j → c.lead.find_unique j s'.leads ≡ c.lead.find_unique j s.leads)
        × (s' ≡ record s { leads = s'.leads })
  unfolding update_lead
  update_lead-some id f s s' q hk e =
      elim (Option-cases (update_scoped (leads c) env id f s.leads)) [
        | inl missed ↦ ground arith
        | inr ((l, t), done) ↦
            let same : t ≡ s'.leads = ground arith in
            let same_lead : l ≡ q = ground arith in
            let keys = λ (x : Lead). c.lead_keyed (f x) ∙ hk x ∙ sym (c.lead_keyed x) in
            let (x, at, is_x, held, others, _) =
              update_scoped-some (leads c) env id f s.leads t l keys done in
            (
              x,
              at,
              sym same_lead ∙ is_x,
              rw (← same, ← same_lead) held,
              rw (← same) others,
              ground arith,
            )
      ]

  -- What a conversion that succeeds has done.
  pub record Converted (id tenant_id : String) (s s' : LeadDb c) (k : Contact) (q : Lead)
      (d : Option LeadDeal) : Type 0 where
    pub lead : Lead
    pub found : find_lead c env id s ≡ some lead
    pub not_before : is_converted lead.status ≡ false
    pub result : q ≡ as_converted env k.id lead
    pub now_converted : (q.status ≡ converted) × (q.converted_at ≡ some env.now)
    pub names_contact : q.converted_to_id ≡ some k.id
    pub stored : c.lead.find_unique id s'.leads ≡ some q
    pub others_kept :
        (j : String) → id ≢ j → c.lead.find_unique j s'.leads ≡ c.lead.find_unique j s.leads
    pub contact_made : k ≡ contact_of env tenant_id lead k.id
    pub contact_from : (k.from_lead_id ≡ some id) × (k.email ≡ lead.email)
    pub contact_new : c.contact.find_unique k.id s.contacts ≡ none
    pub email_free :
        (j : String) (x : Contact) (e : String)
        → c.contact.find_unique j s.contacts ≡ some x
        → x.tenant_id ≡ k.tenant_id
        → x.email ≡ some e
        → k.email ≢ some e
    pub contact_stored : c.contact.find_unique k.id s'.contacts ≡ some k
    pub contacts_kept :
        (j : String) (x : Contact)
        → c.contact.find_unique j s.contacts ≡ some x
        → c.contact.find_unique j s'.contacts ≡ some x
    pub deal_stored :
        (x : LeadDeal)
        → d ≡ some x
        → (x.contact_id ≡ k.id) × (c.deal.find_unique x.id s'.deals ≡ some x)
    pub outbox_kept : s'.outbox ≡ s.outbox

  convert-rows :
      (id : String) (dto : ConvertLeadDto) (tenant_id : String) (s s' : LeadDb c) (k : Contact)
      (q : Lead) (d : Option LeadDeal)
      → convert c env id dto tenant_id s ≡ (ok (k, q, d), s')
      → (l : Lead) × (find_lead c env id s ≡ some l)
        × (is_converted l.status ≡ false)
        × (convert_rows c env id dto tenant_id l s ≡ (ok (k, q, d), s'))
  unfolding convert
  convert-rows id dto tenant_id s s' k q d e = elim (Option-cases (find_lead c env id s)) [
    | inl missing ↦ ground arith
    | inr (l, found) ↦ (l, found, ground arith, ground arith)
  ]

  deal_made :
      (dto : ConvertLeadDto) (tenant_id : String) (l : Lead) (k : Contact) (s s' : LeadDb c)
      (d : Option LeadDeal)
      → convert_deal c env tenant_id dto l k s ≡ some (d, s')
      → (x : LeadDeal) → d ≡ some x
      → (x ≡ deal_of env tenant_id dto l k x.pipeline_id x.stage_id x.id)
        × (c.deal.find_unique x.id s'.deals ≡ some x)
  unfolding convert_deal
  deal_made dto tenant_id l k s s' d e x h = elim (Option-cases (filled dto.pipeline_id)) [
    | inl missing ↦ ground arith
    | inr (pipeline, named) ↦ elim (Option-cases (filled dto.stage_id)) [
      | inl missing ↦ ground arith
      | inr (stage, named_stage) ↦
          let row = deal_of env tenant_id dto l k pipeline stage in
          elim (Option-cases (c.deal.create row s.deals)) [
            | inl refused ↦ ground arith
            | inr ((y, t), made) ↦
                let keys = λ (i : String). c.deal_keyed (row i) in
                let (is_y, _, _) = c.deal.create_lem row s.deals t y keys made in
                let held = create-finds c.deal row s.deals t y keys made in
                let same : y ≡ x = ground arith in
                let key_x : c.deal.key y ≡ x.id = cc (c.deal_keyed y, same) in
                let is_x : y ≡ row x.id = is_y ∙ ap row key_x in
                let there : s'.deals ≡ t = ground arith in
                (ground arith, rw there (rw (key_x, same) at held))
          ]
    ]
  ]

  -- A deal that a conversion makes is stored, for the contact; leads, contacts and outbox are kept.
  convert_deal-some :
      (dto : ConvertLeadDto) (tenant_id : String) (l : Lead) (k : Contact) (s s' : LeadDb c)
      (d : Option LeadDeal)
      → convert_deal c env tenant_id dto l k s ≡ some (d, s')
      → (s'.leads ≡ s.leads)
        × (s'.contacts ≡ s.contacts)
        × (s'.outbox ≡ s.outbox)
        × ((x : LeadDeal)
            → d ≡ some x
            → (x ≡ deal_of env tenant_id dto l k x.pipeline_id x.stage_id x.id)
              × (c.deal.find_unique x.id s'.deals ≡ some x))
  unfolding convert_deal
  convert_deal-some dto tenant_id l k s s' d e =
      (ground arith, ground arith, ground arith, deal_made dto tenant_id l k s s' d e)

  -- A contact that is made clashes with none that is there.
  create_contact-some :
      (tenant_id : String) (l : Lead) (t t' : c.contact.State) (k : Contact)
      → create_contact c env tenant_id l t ≡ some (k, t')
      → (c.contact.create (contact_of env tenant_id l) t ≡ some (k, t'))
        × ((j : String) (x : Contact) (e : String)
            → c.contact.find_unique j t ≡ some x
            → x.tenant_id ≡ row_tenant env "Contact" tenant_id
            → x.email ≡ some e
            → l.email ≢ some e)
  unfolding create_contact
  create_contact-some tenant_id l t t' k made =
      let p = clashes (contact_of env tenant_id l "") in
      elim (Option-cases (c.contact.find_first p t)) [
        | inr (x, clash) ↦ ground arith
        | inl free ↦ (
          ground arith,
          λ j x e at own of same.
              c.contact.find_first_complete p t j x at
                (rw (own, of, same)
                  (ground (arith, ===_refl (row_tenant env "Contact" tenant_id), ===_refl e)))
                free,
        )
      ]

  -- A conversion that succeeds found a lead that was not converted, has made one new contact of it
  -- that names the lead and whose email no other contact of its tenant has, and has stored the lead as converted to that contact, with no other lead
  -- changed; a deal that it makes is stored for the contact. Nothing is queued.
  pub convert_lem :
      (id : String) (dto : ConvertLeadDto) (tenant_id : String) (s s' : LeadDb c) (k : Contact)
      (q : Lead) (d : Option LeadDeal)
      → convert c env id dto tenant_id s ≡ (ok (k, q, d), s')
      → Converted id tenant_id s s' k q d
  unfolding convert_rows
  convert_lem id dto tenant_id s s' k q d e =
      let (l, found, fresh, rows) = convert-rows id dto tenant_id s s' k q d e in
      elim (Option-cases (create_contact c env tenant_id l s.contacts)) [
        | inl refused ↦ ground arith
        | inr ((k', t), allowed) ↦
            let s₁ : LeadDb c = record s { contacts = t } in
            let (made, none_clashes) = create_contact-some tenant_id l s.contacts t k' allowed in
            elim (Option-cases (update_lead c env id (as_converted env k'.id) s₁)) [
              | inl missed ↦ ground arith
              | inr ((l', s₂), done) ↦
                  elim (Option-cases (convert_deal c env tenant_id dto l k' s₂)) [
                    | inl failed ↦ ground arith
                    | inr ((d', s₃), dealt) ↦
                        let row = contact_of env tenant_id l in
                        let keys = λ (i : String). c.contact_keyed (row i) in
                        let (is_k, unused, _) =
                          c.contact.create_lem row s.contacts t k' keys made in
                        let is_k' : k' ≡ k = ground arith in
                        let tenant_k : k.tenant_id ≡ row_tenant env "Contact" tenant_id =
                          ap (λ z. z.tenant_id) (sym is_k' ∙ is_k) in
                        let email_k : k.email ≡ l.email = ap (λ z. z.email) (sym is_k' ∙ is_k) in
                        let held = create-finds c.contact row s.contacts t k' keys made in
                        let key_k = c.contact_keyed k' in
                        let (x, at, is_x, stored, others, whole) =
                          update_lead-some id (as_converted env k'.id) s₁ s₂ l' (λ y. refl) done in
                        let (same_leads, same_contacts, same_outbox, dealt_with) =
                          convert_deal-some dto tenant_id l k' s₂ s₃ d' dealt in
                        let same : s₃ ≡ s' = ground arith in
                        let was : x ≡ l = ground (arith, find_lead_sound id s l found) in
                        record {
                          lead = l;
                          found = found;
                          not_before = fresh;
                          result = ground arith;
                          now_converted = (ground arith, ground arith);
                          names_contact = ground arith;
                          stored = ground arith;
                          others_kept = λ j n. ground (arith, others j n);
                          contact_made = ground arith;
                          contact_from =
                              (ground (arith, find_lead_sound id s l found), ground arith);
                          contact_new = ground arith;
                          email_free = λ j y a there own of same.
                              none_clashes j y a there (own ∙ tenant_k) of (sym email_k ∙ same);
                          contact_stored = ground arith;
                          contacts_kept = λ j y there. ground (
                            arith,
                            create-keeps c.contact row s.contacts t k' y j keys made there,
                          );
                          deal_stored = λ y h. ground (arith, dealt_with y);
                          outbox_kept = ground arith;
                        }
                  ]
            ]
      ]
