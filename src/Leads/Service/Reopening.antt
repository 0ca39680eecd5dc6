-- ===== src/Leads/Service/Reopening.antt =====
-- Converting a lead more than once.
use crm_with_blockchain_rag.Base.{Option, String, ap, arith, err, ok, some, sym, ◌∙◌, ◌≡◌, ◌≢◌}
use crm_with_blockchain_rag.Tenancy.Queries.{Env}
use crm_with_blockchain_rag.Leads.Types.{
  Lead, Contact, LeadDeal, LeadClient, LeadDb, LeadError, business_rule,
}
use crm_with_blockchain_rag.Leads.Service.{
  ConvertLeadDto, UpdateLeadDto, find_lead, update_lead, edit_lead, convert,
}
use crm_with_blockchain_rag.Leads.Service.Conversion.{
  find_lead_sound, find_lead_complete, find_lead_owned, Converted, convert_lem,
}

module _ (c : LeadClient) (env : Env) where
  -- A lead that was converted is not converted again, whatever the second request asks for: the call
  -- is refused and changes nothing.
  pub convert_again :
      (id : String) (dto dto' : ConvertLeadDto) (tenant_id : String) (s s' : LeadDb c) (k : Contact)
      (q : Lead) (d : Option LeadDeal)
      → convert c env id dto tenant_id s ≡ (ok (k, q, d), s')
      → convert c env id dto' tenant_id s' ≡ (err business_rule, s')
  unfolding convert
  convert_again id dto dto' tenant_id s s' k q d e =
      let done = convert_lem c env id dto tenant_id s s' k q d e in
      let owned = find_lead_owned c env id s done.lead done.found in
      let found : find_lead c env id s' ≡ some q =
        find_lead_complete c env id s' q done.stored (ground (arith, done.result)) in
      ground (arith, done.result)

  -- A conversion that throws leaves everything as it was.
  pub convert_failed :
      (id : String) (dto : ConvertLeadDto) (tenant_id : String) (s : LeadDb c) (e : LeadError)
      → (convert c env id dto tenant_id s).0 ≡ err e
      → (convert c env id dto tenant_id s).1 ≡ s
  unfolding convert
  convert_failed id dto tenant_id s e h = ground arith

  edit_lead-contacts :
      (id : String) (edit : UpdateLeadDto) (s s' : LeadDb c) (l : Lead)
      → edit_lead c env id edit s ≡ (ok l, s')
      → s'.contacts ≡ s.contacts
  unfolding edit_lead update_lead
  edit_lead-contacts id edit s s' l e = ground arith

  contact_origin :
      (id : String) (tenant_id : String) (s s' : LeadDb c) (k : Contact) (q : Lead)
      (d : Option LeadDeal)
      → Converted c env id tenant_id s s' k q d
      → k.from_lead_id ≡ some id
  contact_origin id tenant_id s s' k q d done =
      let (_, same) = find_lead_sound c env id s done.lead done.found in
      ground (arith, done.contact_made)

  -- A converted lead may be edited, and where it is then converted again, the two conversions have
  -- made two contacts of the one lead, which are both there, and which do not share an email.
  pub convert_reopened :
      (id : String) (dto dto' : ConvertLeadDto) (edit : UpdateLeadDto) (tenant_id : String)
      (s s₁ s₂ s₃ : LeadDb c) (k k' : Contact) (q q' l : Lead) (d d' : Option LeadDeal)
      → convert c env id dto tenant_id s ≡ (ok (k, q, d), s₁)
      → edit_lead c env id edit s₁ ≡ (ok l, s₂)
      → convert c env id dto' tenant_id s₂ ≡ (ok (k', q', d'), s₃)
      → (k.id ≢ k'.id)
        × (c.contact.find_unique k.id s₃.contacts ≡ some k)
        × (c.contact.find_unique k'.id s₃.contacts ≡ some k')
        × (k.from_lead_id ≡ some id)
        × (k'.from_lead_id ≡ some id)
        × ((e : String) → k.email ≡ some e → k'.email ≢ some e)
  convert_reopened id dto dto' edit tenant_id s s₁ s₂ s₃ k k' q q' l d d' first edited_ok second =
      let one = convert_lem c env id dto tenant_id s s₁ k q d first in
      let two = convert_lem c env id dto' tenant_id s₂ s₃ k' q' d' second in
      let kept = edit_lead-contacts id edit s₁ s₂ l edited_ok in
      let held : c.contact.find_unique k.id s₂.contacts ≡ some k = rw kept one.contact_stored in
      (
        λ same. cc (two.contact_new, held, same),
        two.contacts_kept k.id k held,
        two.contact_stored,
        contact_origin id tenant_id s s₁ k q d one,
        contact_origin id tenant_id s₂ s₃ k' q' d' two,
        λ e of.
            two.email_free k.id k e held
              (ap (λ x. x.tenant_id) one.contact_made
                ∙ sym (ap (λ x. x.tenant_id) two.contact_made))
              of,
      )
