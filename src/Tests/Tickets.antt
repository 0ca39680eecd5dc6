-- ===== src/Tests/Tickets.antt =====
-- crm-backend/src/modules/tickets/tickets.service.ts at concrete inputs.
use crm_with_blockchain_rag.Base.{
  String, [], err, false, none, ok, refl, some, true, ◌∷◌, ◌≡◌, ◌≢◌, ◌⊎◌,
}
use crm_with_blockchain_rag.Prisma.Memory.Instance.{memory}
use crm_with_blockchain_rag.Tenancy.{all_operations, current_tenant}
use crm_with_blockchain_rag.Tenancy.Scoped.{find_scoped, update_scoped}
use crm_with_blockchain_rag.Tickets.Types.{
  Ticket, TicketReply, TicketClient, TicketDb, in_progress, resolved, low, forbidden,
}
use crm_with_blockchain_rag.Tickets.Service.{
  UpdateTicketDto, is_resolved, revised, find_ticket, find_reply, update_ticket, update_reply,
  delete_reply,
}
use crm_with_blockchain_rag.Tickets.Service.Resolution.{update_ticket_lem}
use crm_with_blockchain_rag.Tickets.Service.Replies.{reply_rights}
use crm_with_blockchain_rag.Tests.Rail.{request}

abbrev tables : TicketClient
tables = record {
  ticket = memory (λ t. t.id);
  reply = memory (λ r. r.id);
  ticket_keyed = λ t. refl;
  reply_keyed = λ r. refl;
}

abbrev outage : Ticket
outage = record {
  id = "i1";
  tenant_id = "t1";
  subject = "Outage";
  description = "No login";
  status = in_progress;
  priority = low;
  contact_id = none;
  assignee_id = some "u1";
  resolved_at = none;
}

abbrev answer : TicketReply
answer = record {
  id = "r1";
  tenant_id = "t1";
  ticket_id = "i1";
  author_id = some "u1";
  body = "Fixed";
  is_internal = false;
}

abbrev start : TicketDb tables
start = record {
  tickets = record { rows = outage ∷ []; supply = [] };
  replies = record { rows = answer ∷ []; supply = [] };
  outbox = record { messages = []; notifications = []; embeddings = [] };
}

abbrev resolve : UpdateTicketDto
resolve = record {
  subject = none;
  description = none;
  status = some resolved;
  priority = none;
  contact_id = none;
  assignee_id = none;
}

abbrev done : TicketDb tables
done = (update_ticket tables request "i1" resolve start).1

abbrev fixed : Ticket
fixed = revised request resolve outage outage

update_ticket_lem_example :
    (tables.ticket.find_unique "i1" done.tickets ≡ some fixed)
    × (fixed.status ≡ resolved)
    × (is_resolved fixed.status ≡ true
        → is_resolved outage.status ≡ false
        → fixed.resolved_at ≡ some request.now)
    × ((is_resolved fixed.status ≡ false) ⊎ (is_resolved outage.status ≡ true)
        → fixed.resolved_at ≡ outage.resolved_at)
    × ((j : String)
        → "i1" ≢ j
        → tables.ticket.find_unique j done.tickets ≡ tables.ticket.find_unique j start.tickets)
unfolding update_ticket find_ticket find_scoped update_scoped all_operations current_tenant
update_ticket_lem_example =
    update_ticket_lem tables request "i1" resolve start done fixed outage refl refl

abbrev agent : String
agent = "AGENT"

reply_rights_example :
    (answer.author_id ≢ some "u2"
      → update_reply tables request "r1" "Gone" "u2" start ≡ (err forbidden, start))
    × (answer.author_id ≢ some "u2"
        → agent ≢ "ADMIN"
        → agent ≢ "SUPER_ADMIN"
        → delete_reply tables request "r1" "u2" agent start ≡ (err forbidden, start))
    × ((s' : TicketDb tables)
        → delete_reply tables request "r1" "u2" agent start ≡ (ok tt, s')
        → ((answer.author_id ≡ some "u2") ⊎ (agent ≡ "ADMIN") ⊎ (agent ≡ "SUPER_ADMIN"))
          × (tables.reply.find_unique "r1" s'.replies ≡ none)
          × ((j : String)
              → "r1" ≢ j
              → tables.reply.find_unique j s'.replies ≡ tables.reply.find_unique j start.replies)
          × (s'.tickets ≡ start.tickets))
unfolding find_reply find_scoped all_operations current_tenant
reply_rights_example = reply_rights tables request "r1" "u2" agent "Gone" start answer refl
