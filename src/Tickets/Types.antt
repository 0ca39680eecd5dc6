-- ===== src/Tickets/Types.antt =====
-- The rows that crm-backend/src/modules/tickets/tickets.service.ts reads and writes, and what it hands
-- to the queues and sockets.
use crm_with_blockchain_rag.Base.{Bool, List, Option, String, ℕ, ◌≡◌}
use crm_with_blockchain_rag.Prisma.{Table}
use crm_with_blockchain_rag.Tenancy.Scoped.{Scoped}

pub data TicketStatus : Type 0 where
  open_ticket pending in_progress resolved closed : TicketStatus

pub data TicketPriority : Type 0 where
  low medium high urgent : TicketPriority

pub record Ticket : Type 0 where
  pub id : String
  pub tenant_id : String
  pub subject : String
  pub description : String
  pub status : TicketStatus
  pub priority : TicketPriority
  pub contact_id : Option String
  pub assignee_id : Option String
  pub resolved_at : Option ℕ

pub record TicketReply : Type 0 where
  pub id : String
  pub tenant_id : String
  pub ticket_id : String
  -- None for a reply that came in from outside.
  pub author_id : Option String
  pub body : String
  pub is_internal : Bool

pub data TicketEvent : Type 0 where
  ticket_assigned ticket_created ticket_updated ticket_reply : TicketEvent

-- A message to a user or to a tenant.
pub data Recipient : Type 0 where
  to_user to_tenant : String → Recipient

pub record TicketMessage : Type 0 where
  pub recipient : Recipient
  pub event : TicketEvent
  pub ticket_id : String

pub record TicketNotice : Type 0 where
  pub tenant_id : String
  pub user_id : String
  pub title : String
  pub body : String
  pub entity_id : String

-- A job of the embedding queue: the text to index, or none for a deletion.
pub record EmbeddingJob : Type 0 where
  pub tenant_id : String
  pub entity_id : String
  pub content : Option String

pub record TicketOutbox : Type 0 where
  pub messages : List TicketMessage
  pub notifications : List TicketNotice
  pub embeddings : List EmbeddingJob

pub record TicketClient : Type 1 where
  pub ticket : Table Ticket
  pub reply : Table TicketReply
  pub ticket_keyed : (t : Ticket) → ticket.key t ≡ t.id
  pub reply_keyed : (r : TicketReply) → reply.key r ≡ r.id

abbrev pub tickets : TicketClient → Scoped Ticket
tickets c = record { table = c.ticket; tenant = λ t. t.tenant_id; model = "Ticket" }

abbrev pub replies : TicketClient → Scoped TicketReply
replies c = record { table = c.reply; tenant = λ r. r.tenant_id; model = "TicketReply" }

pub record TicketDb (c : TicketClient) : Type 0 where
  pub tickets : c.ticket.State
  pub replies : c.reply.State
  pub outbox : TicketOutbox

pub data TicketError : Type 0 where
  not_found forbidden record_missing constraint_violation : TicketError
