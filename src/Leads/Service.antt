-- ===== src/Leads/Service.antt =====
-- crm-backend/src/modules/leads/leads.service.ts. The queues and sockets take every job.
pub mod Conversion
pub mod Reopening
use crm_with_blockchain_rag.Base.{
  Bool, Option, Result, String, err, false, filled, given, given_too, if◌then◌else◌, none, ok, some,
  true, ℕ, ◌&&◌, ◌+++◌, ◌===◌, ◌∷◌,
}
use crm_with_blockchain_rag.LeadScoring.{LeadStatus, new_lead, contacted, converted}
use crm_with_blockchain_rag.Tenancy.Queries.{Env, row_tenant}
use crm_with_blockchain_rag.Tenancy.Scoped.{find_scoped, update_scoped, delete_scoped}
use crm_with_blockchain_rag.Leads.Types.{
  Lead, Contact, LeadDeal, lead_created, lead_status_changed, lead_assigned, LeadJob, LeadNotice,
  LeadOutbox, LeadClient, leads, LeadDb, LeadError, not_found, business_rule, record_missing,
  constraint_violation, commit_failed,
}

-- `CreateLeadDto`
pub record CreateLeadDto : Type 0 where
  pub first_name : String
  pub last_name : String
  pub email : Option String
  pub phone : Option String
  pub job_title : Option String
  pub company_name : Option String
  pub status : LeadStatus
  pub assignee_id : Option String

-- `UpdateLeadDto`, the fields that are sent.
pub record UpdateLeadDto : Type 0 where
  pub first_name : Option String
  pub last_name : Option String
  pub email : Option String
  pub phone : Option String
  pub job_title : Option String
  pub company_name : Option String
  pub status : Option LeadStatus
  pub assignee_id : Option String

-- `ConvertLeadDto`
pub record ConvertLeadDto : Type 0 where
  pub create_deal : Bool
  pub deal_title : Option String
  pub deal_value : Option ℕ
  pub pipeline_id : Option String
  pub stage_id : Option String

abbrev pub is_new : LeadStatus → Bool
is_new new_lead = true
is_new _ = false

abbrev pub is_converted : LeadStatus → Bool
is_converted converted = true
is_converted _ = false

-- The columns that an update sets.
abbrev pub edited : UpdateLeadDto → Lead → Lead
edited dto l = record l {
  first_name = given dto.first_name l.first_name;
  last_name = given dto.last_name l.last_name;
  email = given_too dto.email l.email;
  phone = given_too dto.phone l.phone;
  job_title = given_too dto.job_title l.job_title;
  company_name = given_too dto.company_name l.company_name;
  status = given dto.status l.status;
  assignee_id = given_too dto.assignee_id l.assignee_id;
}

-- The columns that an assignment sets, by the status that was read before.
abbrev pub assigned : String → Lead → Lead → Lead
assigned assignee_id old l = record l {
  assignee_id = some assignee_id;
  status = if is_new old.status then contacted else old.status;
}

-- The columns that a conversion sets.
abbrev pub as_converted : Env → String → Lead → Lead
as_converted env contact_id l = record l {
  status = converted;
  converted_at = some env.now;
  converted_to_id = some contact_id;
}

-- The contact made from a lead.
abbrev pub contact_of : Env → String → Lead → String → Contact
contact_of env tenant_id l id = record {
  id = id;
  tenant_id = row_tenant env "Contact" tenant_id;
  first_name = l.first_name;
  last_name = l.last_name;
  email = l.email;
  phone = l.phone;
  job_title = l.job_title;
  from_lead_id = some l.id;
}

-- The emails are there and equal; a unique index takes missing ones for different.
abbrev pub same_email : Option String → Option String → Bool
same_email (some a) (some b) = a === b
same_email _ _ = false

-- `@@unique([tenantId, email])`
abbrev pub clashes : Contact → Contact → Bool
clashes k x = x.tenant_id === k.tenant_id && same_email x.email k.email

-- The deal made with it.
abbrev pub deal_of :
    Env → String → ConvertLeadDto → Lead → Contact → String → String → String → LeadDeal
deal_of env tenant_id dto l k pipeline_id stage_id id = record {
  id = id;
  tenant_id = row_tenant env "Deal" tenant_id;
  title = given dto.deal_title ("Deal - " +++ k.first_name +++ " " +++ k.last_name);
  value = given dto.deal_value 0;
  pipeline_id = pipeline_id;
  stage_id = stage_id;
  contact_id = k.id;
  description = elim (filled l.company_name) [
    | none ↦ none
    | some name ↦ some ("From lead: " +++ name)
  ];
}

abbrev pub notice : String → String → String → Lead → LeadNotice
notice tenant_id user_id title l = record {
  tenant_id = tenant_id;
  user_id = user_id;
  title = title;
  body = l.first_name +++ " " +++ l.last_name +++ " has been assigned to you";
  entity_id = l.id;
}

module _ (c : LeadClient) where
  abbrev pub LeadOutcome : Type 0 → Type 0
  LeadOutcome A = Result LeadError A × LeadDb c

  unfoldable pub find_lead : Env → String → LeadDb c → Option Lead
  find_lead env id s = find_scoped (leads c) env (λ l. l.id === id) s.leads

  unfoldable pub update_lead : Env → String → (Lead → Lead) → LeadDb c → Option (Lead × LeadDb c)
  update_lead env id f s = elim (update_scoped (leads c) env id f s.leads) [
    | none ↦ none
    | some (l, t) ↦ some (l, record s { leads = t })
  ]

  unfoldable pub create_lead : Env → CreateLeadDto → String → LeadDb c → LeadOutcome Lead
  create_lead env dto tenant_id s =
      elim (c.lead.create
        (λ i. record {
          id = i;
          tenant_id = row_tenant env "Lead" tenant_id;
          first_name = dto.first_name;
          last_name = dto.last_name;
          email = dto.email;
          phone = dto.phone;
          job_title = dto.job_title;
          company_name = dto.company_name;
          status = dto.status;
          assignee_id = filled dto.assignee_id;
          converted_at = none;
          converted_to_id = none;
        })
        s.leads) [
          | none ↦ (err constraint_violation, s)
          | some (l, t) ↦
              let job : LeadJob = record {
                tenant_id = tenant_id;
                event = lead_created;
                lead = l;
              } in
              (
                ok l,
                record s {
                  leads = t;
                  outbox = record s.outbox {
                    automation = job ∷ s.outbox.automation;
                    webhooks = job ∷ s.outbox.webhooks;
                    sockets = (tenant_id, job) ∷ s.outbox.sockets;
                    scorings = (tenant_id, l.id) ∷ s.outbox.scorings;
                    notifications = elim (filled l.assignee_id) [
                      | none ↦ s.outbox.notifications
                      | some user ↦
                          notice tenant_id user "New lead assigned" l ∷ s.outbox.notifications
                    ];
                  };
                },
              )
        ]

  -- The method `update`.
  unfoldable pub edit_lead : Env → String → UpdateLeadDto → LeadDb c → LeadOutcome Lead
  edit_lead env id dto s = elim (find_lead env id s) [
    | none ↦ (err not_found, s)
    | some existing ↦ elim (update_lead env id (edited dto) s) [
      | none ↦ (err record_missing, s)
      | some (l, s₁) ↦
          let job : LeadJob = record {
            tenant_id = existing.tenant_id;
            event = lead_status_changed;
            lead = l;
          } in
          (
            ok l,
            record s₁ {
              outbox = record s₁.outbox {
                automation = elim (dto.status) [
                  | none ↦ s₁.outbox.automation
                  | some _ ↦ job ∷ s₁.outbox.automation
                ];
                scorings = (existing.tenant_id, id) ∷ s₁.outbox.scorings;
              };
            },
          )
    ]
  ]

  -- The method `delete`.
  unfoldable pub delete_lead : Env → String → LeadDb c → LeadOutcome (Unit {0})
  delete_lead env id s = elim (find_lead env id s) [
    | none ↦ (err not_found, s)
    | some existing ↦ elim (delete_scoped (leads c) env id s.leads) [
      | none ↦ (err record_missing, s)
      | some t ↦ (ok tt, record s { leads = t })
    ]
  ]

  unfoldable pub assign_lead : Env → String → String → String → LeadDb c → LeadOutcome Lead
  assign_lead env id assignee_id tenant_id s = elim (find_lead env id s) [
    | none ↦ (err not_found, s)
    | some old ↦ elim (update_lead env id (assigned assignee_id old) s) [
      | none ↦ (err record_missing, s)
      | some (l, s₁) ↦
          let job : LeadJob = record { tenant_id = tenant_id; event = lead_assigned; lead = l } in
          (
            ok l,
            record s₁ {
              outbox = record s₁.outbox {
                notifications =
                    record (notice tenant_id assignee_id "Lead assigned to you" old) {
                      entity_id = id;
                    }
                    ∷ s₁.outbox.notifications;
                sockets = (assignee_id, job) ∷ s₁.outbox.sockets;
              };
            },
          )
    ]
  ]

  -- The deal of a conversion, where one is asked for with a pipeline and a stage.
  unfoldable pub convert_deal :
      Env
      → String
      → ConvertLeadDto
      → Lead
      → Contact
      → LeadDb c
      → Option (Option LeadDeal × LeadDb c)
  convert_deal env tenant_id dto l k s =
      if dto.create_deal
      then elim (filled dto.pipeline_id) [
        | none ↦ some (none, s)
        | some pipeline ↦ elim (filled dto.stage_id) [
          | none ↦ some (none, s)
          | some stage ↦
              elim (c.deal.create (deal_of env tenant_id dto l k pipeline stage) s.deals) [
                | none ↦ none
                | some (d, t) ↦ some (some d, record s { deals = t })
              ]
        ]
      ]
      else some (none, s)

  -- `tx.contact.create`, which the unique index may refuse.
  unfoldable pub create_contact :
      Env → String → Lead → c.contact.State → Option (Contact × c.contact.State)
  create_contact env tenant_id l t =
      elim (c.contact.find_first (clashes (contact_of env tenant_id l "")) t) [
        | some _ ↦ none
        | none ↦ c.contact.create (contact_of env tenant_id l) t
      ]

  -- The callback of the transaction, for the lead that was read before it.
  unfoldable pub convert_rows :
      Env
      → String
      → ConvertLeadDto
      → String
      → Lead
      → LeadDb c
      → Result LeadError (Contact × Lead × Option LeadDeal) × LeadDb c
  convert_rows env id dto tenant_id l s = elim (create_contact env tenant_id l s.contacts) [
    | none ↦ (err constraint_violation, s)
    | some (k, t) ↦
        let s₁ : LeadDb c = record s { contacts = t } in
        elim (update_lead env id (as_converted env k.id) s₁) [
          | none ↦ (err record_missing, s)
          | some (l', s₂) ↦ elim (convert_deal env tenant_id dto l k s₂) [
            | none ↦ (err constraint_violation, s)
            | some (d, s₃) ↦ (ok (k, l', d), s₃)
          ]
        ]
  ]

  unfoldable pub convert :
      Env
      → String
      → ConvertLeadDto
      → String
      → LeadDb c
      → Result LeadError (Contact × Lead × Option LeadDeal) × LeadDb c
  convert env id dto tenant_id s = elim (find_lead env id s) [
    | none ↦ (err not_found, s)
    | some l ↦
        if is_converted l.status
        then (err business_rule, s)
        else (let (r, s') = convert_rows env id dto tenant_id l s in
            elim r [
              | err e ↦ (err e, s)
              | ok x ↦ if env.commits then (ok x, s') else (err commit_failed, s)
            ])
  ]
