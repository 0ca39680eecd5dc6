-- ===== src/Tickets/Service.antt =====
-- crm-backend/src/modules/tickets/tickets.service.ts. The queues and sockets take every job; a job of
-- the embedding queue that is refused is only logged by the source.
pub mod Resolution
pub mod Replies
use crm_with_blockchain_rag.Base.{
  Bool, Option, Result, String, err, false, filled, given, given_too, if◌then◌else◌, none, not, ok,
  some, true, truthy, ◌&&◌, ◌+++◌, ◌===◌, ◌||◌, ◌∷◌,
}
use crm_with_blockchain_rag.Tenancy.Queries.{Env, row_tenant}
use crm_with_blockchain_rag.Tenancy.Scoped.{find_scoped, update_scoped, delete_scoped}
use crm_with_blockchain_rag.Tickets.Types.{
  TicketStatus, resolved, TicketPriority, low, medium, high, urgent, Ticket, TicketReply,
  ticket_assigned, ticket_created, ticket_updated, ticket_reply, Recipient, to_user, to_tenant,
  TicketEvent, TicketMessage, TicketNotice, EmbeddingJob, TicketOutbox, TicketClient, tickets,
  replies, TicketDb, TicketError, not_found, forbidden, record_missing, constraint_violation,
}

-- `CreateTicketDto`
pub record CreateTicketDto : Type 0 where
  pub subject : String
  pub description : String
  pub status : TicketStatus
  pub priority : TicketPriority
  pub contact_id : Option String
  pub assignee_id : Option String

-- `UpdateTicketDto`, the fields that are sent.
pub record UpdateTicketDto : Type 0 where
  pub subject : Option String
  pub description : Option String
  pub status : Option TicketStatus
  pub priority : Option TicketPriority
  pub contact_id : Option String
  pub assignee_id : Option String

abbrev pub is_resolved : TicketStatus → Bool
is_resolved resolved = true
is_resolved _ = false

-- `dto.status === 'RESOLVED' && ticket.status !== 'RESOLVED'`
abbrev pub resolves : UpdateTicketDto → Ticket → Bool
resolves dto old = elim (dto.status) [
  | none ↦ false
  | some st ↦ is_resolved st && not (is_resolved old.status)
]

-- The columns that an update sets, by the ticket that was read before.
abbrev pub revised : Env → UpdateTicketDto → Ticket → Ticket → Ticket
revised env dto old t = record t {
  subject = given dto.subject t.subject;
  description = given dto.description t.description;
  status = given dto.status t.status;
  priority = given dto.priority t.priority;
  contact_id = given_too dto.contact_id t.contact_id;
  assignee_id = given_too dto.assignee_id t.assignee_id;
  resolved_at = if resolves dto old then some env.now else t.resolved_at;
}

abbrev pub priority_name : TicketPriority → String
priority_name low = "LOW"
priority_name medium = "MEDIUM"
priority_name high = "HIGH"
priority_name urgent = "URGENT"

-- The text that is indexed; an empty description is left out.
abbrev pub content_of : String → String → TicketPriority → String
content_of subject description priority =
    "Subject: "
    +++ subject
    +++ (if truthy description then " | " +++ description else "")
    +++ " | Priority: "
    +++ priority_name priority

abbrev pub message : Recipient → TicketEvent → String → TicketMessage
message recipient event ticket_id = record {
  recipient = recipient;
  event = event;
  ticket_id = ticket_id;
}

abbrev pub ticket_notice : String → String → String → Ticket → TicketNotice
ticket_notice tenant_id user_id title t = record {
  tenant_id = tenant_id;
  user_id = user_id;
  title = title;
  body = "Ticket: " +++ t.subject;
  entity_id = t.id;
}

-- `reply.authorId === authorId`
abbrev pub is_author : TicketReply → String → Bool
is_author r user = elim (r.author_id) [ none ↦ false | some a ↦ a === user ]

module _ (c : TicketClient) where
  abbrev pub TicketOutcome : Type 0 → Type 0
  TicketOutcome A = Result TicketError A × TicketDb c

  unfoldable pub find_ticket : Env → String → TicketDb c → Option Ticket
  find_ticket env id s = find_scoped (tickets c) env (λ t. t.id === id) s.tickets

  unfoldable pub find_reply : Env → String → TicketDb c → Option TicketReply
  find_reply env id s = find_scoped (replies c) env (λ r. r.id === id) s.replies

  unfoldable pub create_ticket : Env → CreateTicketDto → String → TicketDb c → TicketOutcome Ticket
  create_ticket env dto tenant_id s =
      elim (c.ticket.create
        (λ i. record {
          id = i;
          tenant_id = row_tenant env "Ticket" tenant_id;
          subject = dto.subject;
          description = dto.description;
          status = dto.status;
          priority = dto.priority;
          contact_id = filled dto.contact_id;
          assignee_id = filled dto.assignee_id;
          resolved_at = none;
        })
        s.tickets) [
          | none ↦ (err constraint_violation, s)
          | some (t, rows) ↦
              let told = message (to_tenant tenant_id) ticket_created t.id in
              (
                ok t,
                record s {
                  tickets = rows;
                  outbox = record {
                    notifications = elim (filled dto.assignee_id) [
                      | none ↦ s.outbox.notifications
                      | some user ↦
                          ticket_notice tenant_id user "New ticket assigned to you" t
                          ∷ s.outbox.notifications
                    ];
                    messages = elim (filled dto.assignee_id) [
                      | none ↦ told ∷ s.outbox.messages
                      | some user ↦
                          told ∷ message (to_user user) ticket_assigned t.id ∷ s.outbox.messages
                    ];
                    embeddings =
                        record {
                          tenant_id = tenant_id;
                          entity_id = t.id;
                          content = some (content_of dto.subject dto.description dto.priority);
                        }
                        ∷ s.outbox.embeddings;
                  };
                },
              )
        ]

  -- The method `update`.
  unfoldable pub update_ticket : Env → String → UpdateTicketDto → TicketDb c → TicketOutcome Ticket
  update_ticket env id dto s = elim (find_ticket env id s) [
    | none ↦ (err not_found, s)
    | some old ↦ elim (update_scoped (tickets c) env id (revised env dto old) s.tickets) [
      | none ↦ (err record_missing, s)
      | some (t, rows) ↦
          let job : EmbeddingJob = record {
            tenant_id = old.tenant_id;
            entity_id = id;
            content = some (content_of t.subject t.description t.priority);
          } in
          (
            ok t,
            record s {
              tickets = rows;
              outbox = record s.outbox {
                messages = message (to_tenant old.tenant_id) ticket_updated id ∷ s.outbox.messages;
                embeddings = elim (dto.subject) [
                  | some _ ↦ job ∷ s.outbox.embeddings
                  | none ↦ elim (dto.description) [
                    | some _ ↦ job ∷ s.outbox.embeddings
                    | none ↦ s.outbox.embeddings
                  ]
                ];
              };
            },
          )
    ]
  ]

  -- The method `delete`.
  unfoldable pub delete_ticket : Env → String → TicketDb c → TicketOutcome (Unit {0})
  delete_ticket env id s = elim (find_ticket env id s) [
    | none ↦ (err not_found, s)
    | some old ↦ elim (delete_scoped (tickets c) env id s.tickets) [
      | none ↦ (err record_missing, s)
      | some rows ↦ (
        ok tt,
        record s {
          tickets = rows;
          outbox = record s.outbox {
            embeddings =
                record { tenant_id = old.tenant_id; entity_id = id; content = none }
                ∷ s.outbox.embeddings;
          };
        },
      )
    ]
  ]

  unfoldable pub assign_ticket : Env → String → String → String → TicketDb c → TicketOutcome Ticket
  assign_ticket env id assignee_id tenant_id s = elim (find_ticket env id s) [
    | none ↦ (err not_found, s)
    | some old ↦
        elim (update_scoped (tickets c) env id (λ t. record t { assignee_id = some assignee_id })
          s.tickets) [
            | none ↦ (err record_missing, s)
            | some (t, rows) ↦ (
              ok t,
              record s {
                tickets = rows;
                outbox = record s.outbox {
                  notifications =
                      record (ticket_notice tenant_id assignee_id "Ticket assigned to you" old) {
                        entity_id = id;
                      }
                      ∷ s.outbox.notifications;
                  messages =
                      message (to_tenant tenant_id) ticket_updated id
                      ∷ message (to_user assignee_id) ticket_assigned id
                      ∷ s.outbox.messages;
                };
              },
            )
          ]
  ]

  unfoldable pub add_reply :
      Env → String → String → Bool → String → String → TicketDb c → TicketOutcome TicketReply
  add_reply env ticket_id body is_internal author_id tenant_id s =
      elim (find_ticket env ticket_id s) [
        | none ↦ (err not_found, s)
        | some t ↦
            elim (c.reply.create
              (λ i. record {
                id = i;
                tenant_id = row_tenant env "TicketReply" tenant_id;
                ticket_id = ticket_id;
                author_id = some author_id;
                body = body;
                is_internal = is_internal;
              })
              s.replies) [
                | none ↦ (err constraint_violation, s)
                | some (r, rows) ↦
                    let told = message (to_tenant tenant_id) ticket_reply ticket_id in
                    (
                      ok r,
                      record s {
                        replies = rows;
                        outbox = record s.outbox {
                          messages = elim (filled t.assignee_id) [
                            | none ↦ told ∷ s.outbox.messages
                            | some user ↦
                                if user === author_id
                                then told ∷ s.outbox.messages
                                else told
                                  ∷ message (to_user user) ticket_reply ticket_id
                                  ∷ s.outbox.messages
                          ];
                        };
                      },
                    )
              ]
      ]

  unfoldable pub update_reply :
      Env → String → String → String → TicketDb c → TicketOutcome TicketReply
  update_reply env reply_id body author_id s = elim (find_reply env reply_id s) [
    | none ↦ (err not_found, s)
    | some r ↦
        if is_author r author_id
        then elim (update_scoped (replies c) env reply_id (λ x. record x { body = body })
            s.replies) [
              | none ↦ (err record_missing, s)
              | some (r', rows) ↦ (ok r', record s { replies = rows })
            ]
        else (err forbidden, s)
  ]

  unfoldable pub delete_reply :
      Env → String → String → String → TicketDb c → TicketOutcome (Unit {0})
  delete_reply env reply_id author_id user_role s = elim (find_reply env reply_id s) [
    | none ↦ (err not_found, s)
    | some r ↦
        if is_author r author_id || user_role === "ADMIN" || user_role === "SUPER_ADMIN"
        then elim (delete_scoped (replies c) env reply_id s.replies) [
          | none ↦ (err record_missing, s)
          | some rows ↦ (ok tt, record s { replies = rows })
        ]
        else (err forbidden, s)
  ]
