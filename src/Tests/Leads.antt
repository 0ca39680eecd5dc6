-- ===== src/Tests/Leads.antt =====
-- crm-backend/src/modules/leads/leads.service.ts at concrete inputs.
use crm_with_blockchain_rag.Base.{String, [], err, false, none, ok, refl, some, true, ◌∷◌, ◌≡◌, ◌≢◌}
use crm_with_blockchain_rag.Prisma.Memory.Instance.{memory}
use crm_with_blockchain_rag.Tenancy.{all_operations, current_tenant}
use crm_with_blockchain_rag.Tenancy.Scoped.{find_scoped, update_scoped}
use crm_with_blockchain_rag.LeadScoring.{qualified}
use crm_with_blockchain_rag.Leads.Types.{
  Lead, Contact, LeadDeal, LeadClient, LeadDb, constraint_violation,
}
use crm_with_blockchain_rag.Leads.Service.{
  ConvertLeadDto, UpdateLeadDto, edited, as_converted, contact_of, deal_of, find_lead, update_lead,
  edit_lead, convert_deal, convert_rows, convert, create_contact,
}
use crm_with_blockchain_rag.Leads.Service.Conversion.{Converted, convert_lem}
use crm_with_blockchain_rag.Leads.Service.Reopening.{convert_reopened}
use crm_with_blockchain_rag.Tests.Rail.{request}

abbrev tables : LeadClient
tables = record {
  lead = memory (λ l. l.id);
  contact = memory (λ k. k.id);
  deal = memory (λ d. d.id);
  lead_keyed = λ l. refl;
  contact_keyed = λ k. refl;
  deal_keyed = λ d. refl;
}

abbrev ada : Lead
ada = record {
  id = "l1";
  tenant_id = "t1";
  first_name = "Ada";
  last_name = "King";
  email = some "ada@engine.org";
  phone = none;
  job_title = none;
  company_name = some "Engine";
  status = qualified;
  assignee_id = none;
  converted_at = none;
  converted_to_id = none;
}

abbrev start : LeadDb tables
start = record {
  leads = record { rows = ada ∷ record ada { id = "l2"; tenant_id = "t2" } ∷ []; supply = [] };
  contacts = record { rows = []; supply = "k1" ∷ "k2" ∷ [] };
  deals = record { rows = []; supply = "d1" ∷ "d2" ∷ [] };
  outbox = record {
    automation = [];
    webhooks = [];
    sockets = [];
    notifications = [];
    scorings = [];
  };
}

abbrev with_deal : ConvertLeadDto
with_deal = record {
  create_deal = true;
  deal_title = none;
  deal_value = some 500;
  pipeline_id = some "pl";
  stage_id = some "g1";
}

abbrev alone : ConvertLeadDto
alone = record {
  create_deal = false;
  deal_title = none;
  deal_value = none;
  pipeline_id = none;
  stage_id = none;
}

abbrev reopen : UpdateLeadDto
reopen = record {
  first_name = none;
  last_name = none;
  email = some "ada@king.org";
  phone = none;
  job_title = none;
  company_name = none;
  status = some qualified;
  assignee_id = none;
}

abbrev contact : String → Contact
contact id = contact_of request "t1" ada id

abbrev deal : LeadDeal
deal = deal_of request "t1" with_deal ada (contact "k1") "pl" "g1" "d1"

abbrev ada_converted : Lead
ada_converted = as_converted request "k1" ada

abbrev new_contact : Contact
new_contact = contact_of request "t1" (edited reopen ada_converted) "k2"

abbrev ada_again : Lead
ada_again = as_converted request "k2" (edited reopen ada_converted)

abbrev once : LeadDb tables
once = (convert tables request "l1" with_deal "t1" start).1

abbrev reopened : LeadDb tables
reopened = (edit_lead tables request "l1" reopen once).1

abbrev twice : LeadDb tables
twice = (convert tables request "l1" alone "t1" reopened).1

convert_ada :
    convert tables request "l1" with_deal "t1" start
    ≡ (ok (contact "k1", ada_converted, some deal), once)
unfolding convert create_contact convert_rows convert_deal update_lead find_lead find_scoped
    update_scoped all_operations current_tenant
convert_ada = refl

reopen_ada :
    edit_lead tables request "l1" reopen once ≡ (ok (edited reopen ada_converted), reopened)
unfolding edit_lead convert create_contact convert_rows convert_deal update_lead find_lead
    find_scoped update_scoped all_operations current_tenant
reopen_ada = refl

ada_again_converts :
    convert tables request "l1" alone "t1" reopened ≡ (ok (new_contact, ada_again, none), twice)
unfolding edit_lead convert create_contact convert_rows convert_deal update_lead find_lead
    find_scoped update_scoped all_operations current_tenant
ada_again_converts = refl

convert_lem_example :
    Converted tables request "l1" "t1" start once (contact "k1") ada_converted (some deal)
convert_lem_example =
    convert_lem tables request "l1" with_deal "t1" start once (contact "k1") ada_converted
      (some deal) convert_ada

-- Without the new email the unique index refuses the second contact.
same_email_refused :
    (convert tables request "l1" alone "t1"
      (edit_lead tables request "l1" (record reopen { email = none }) once).1).0
    ≡ err constraint_violation
unfolding edit_lead convert create_contact convert_rows convert_deal update_lead find_lead
    find_scoped update_scoped all_operations current_tenant
same_email_refused = refl

convert_reopened_example :
    ((contact "k1").id ≢ new_contact.id)
    × (tables.contact.find_unique "k1" twice.contacts ≡ some (contact "k1"))
    × (tables.contact.find_unique "k2" twice.contacts ≡ some new_contact)
    × ((contact "k1").from_lead_id ≡ some "l1")
    × (new_contact.from_lead_id ≡ some "l1")
    × ((e : String) → (contact "k1").email ≡ some e → new_contact.email ≢ some e)
convert_reopened_example =
    convert_reopened tables request "l1" with_deal alone reopen "t1" start once reopened twice
      (contact "k1") new_contact ada_converted ada_again (edited reopen ada_converted) (some deal)
      none convert_ada reopen_ada ada_again_converts
