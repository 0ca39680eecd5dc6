-- ===== src/Leads/Types.antt =====
-- The rows that crm-backend/src/modules/leads/leads.service.ts reads and writes, and what it hands to
-- the queues and sockets. Columns that pass through unread (website, source, notes, tags, custom
-- fields) are left out. Times are numbers of milliseconds, values hundredths.
use crm_with_blockchain_rag.Base.{List, Option, String, ℕ, ◌≡◌}
use crm_with_blockchain_rag.Prisma.{Table}
use crm_with_blockchain_rag.LeadScoring.{LeadStatus}
use crm_with_blockchain_rag.Tenancy.Scoped.{Scoped}

pub record Lead : Type 0 where
  pub id : String
  pub tenant_id : String
  pub first_name : String
  pub last_name : String
  pub email : Option String
  pub phone : Option String
  pub job_title : Option String
  pub company_name : Option String
  pub status : LeadStatus
  pub assignee_id : Option String
  pub converted_at : Option ℕ
  pub converted_to_id : Option String

pub record Contact : Type 0 where
  pub id : String
  pub tenant_id : String
  pub first_name : String
  pub last_name : String
  pub email : Option String
  pub phone : Option String
  pub job_title : Option String
  pub from_lead_id : Option String

-- The deal that a conversion makes.
pub record LeadDeal : Type 0 where
  pub id : String
  pub tenant_id : String
  pub title : String
  pub value : ℕ
  pub pipeline_id : String
  pub stage_id : String
  pub contact_id : String
  pub description : Option String

pub data LeadEvent : Type 0 where
  lead_created lead_status_changed lead_assigned : LeadEvent

-- A job of the automation or webhook queue, or a message to the sockets.
pub record LeadJob : Type 0 where
  pub tenant_id : String
  pub event : LeadEvent
  pub lead : Lead

-- A notification of one user.
pub record LeadNotice : Type 0 where
  pub tenant_id : String
  pub user_id : String
  pub title : String
  pub body : String
  pub entity_id : String

-- What the service hands on, the newest first; a scoring is asked for a tenant's lead.
pub record LeadOutbox : Type 0 where
  pub automation : List LeadJob
  pub webhooks : List LeadJob
  pub sockets : List (String × LeadJob)
  pub notifications : List LeadNotice
  pub scorings : List (String × String)

pub record LeadClient : Type 1 where
  pub lead : Table Lead
  pub contact : Table Contact
  pub deal : Table LeadDeal
  pub lead_keyed : (l : Lead) → lead.key l ≡ l.id
  pub contact_keyed : (k : Contact) → contact.key k ≡ k.id
  pub deal_keyed : (d : LeadDeal) → deal.key d ≡ d.id

abbrev pub leads : LeadClient → Scoped Lead
leads c = record { table = c.lead; tenant = λ l. l.tenant_id; model = "Lead" }

pub record LeadDb (c : LeadClient) : Type 0 where
  pub leads : c.lead.State
  pub contacts : c.contact.State
  pub deals : c.deal.State
  pub outbox : LeadOutbox

pub data LeadError : Type 0 where
  not_found business_rule record_missing constraint_violation commit_failed : LeadError
