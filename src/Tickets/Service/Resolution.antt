-- ===== src/Tickets/Service/Resolution.antt =====
-- The time at which a ticket was resolved.
use crm_with_blockchain_rag.Base.{
  Option-cases, String, arith, eq_iff, false, given, inl, inr, ok, some, sym, true, ◌===◌, ◌∙◌, ◌≡◌,
  ◌≢◌, ◌⊎◌,
}
use crm_with_blockchain_rag.Tenancy.Queries.{Env}
use crm_with_blockchain_rag.Tenancy.Scoped.{find_scoped_sound, update_scoped, update_scoped-some}
use crm_with_blockchain_rag.Tickets.Types.{Ticket, TicketClient, tickets, TicketDb}
use crm_with_blockchain_rag.Tickets.Service.{
  UpdateTicketDto, is_resolved, revised, find_ticket, update_ticket,
}

module _ (c : TicketClient) (env : Env) where
  find_ticket_sound :
      (id : String) (s : TicketDb c) (t : Ticket)
      → find_ticket c env id s ≡ some t
      → c.ticket.find_unique id s.tickets ≡ some t
  unfolding find_ticket
  find_ticket_sound id s t e =
      (find_scoped_sound (tickets c) env (λ x. x.id === id) id s.tickets t
        (λ x h. ground (arith, c.ticket_keyed x, eq_iff x.id id)) e).0

  -- An update that succeeds stores the ticket with the status that was sent, if one was; the time of
  -- its resolution is now exactly if the update makes a ticket resolved that was not, and is kept
  -- otherwise, also where a resolved ticket is taken up again. No other ticket changes.
  pub update_ticket_lem :
      (id : String) (dto : UpdateTicketDto) (s s' : TicketDb c) (t old : Ticket)
      → find_ticket c env id s ≡ some old
      → update_ticket c env id dto s ≡ (ok t, s')
      → (c.ticket.find_unique id s'.tickets ≡ some t)
        × (t.status ≡ given dto.status old.status)
        × (is_resolved t.status ≡ true
            → is_resolved old.status ≡ false
            → t.resolved_at ≡ some env.now)
        × ((is_resolved t.status ≡ false) ⊎ (is_resolved old.status ≡ true)
            → t.resolved_at ≡ old.resolved_at)
        × ((j : String)
            → id ≢ j
            → c.ticket.find_unique j s'.tickets ≡ c.ticket.find_unique j s.tickets)
  unfolding update_ticket
  update_ticket_lem id dto s s' t old found e =
      elim (Option-cases (update_scoped (tickets c) env id (revised env dto old) s.tickets)) [
        | inl missed ↦ ground arith
        | inr ((t', rows), done) ↦
            let keys =
              λ (x : Ticket). c.ticket_keyed (revised env dto old x) ∙ sym (c.ticket_keyed x) in
            let (x, at, is_x, stored, others, _) =
              update_scoped-some (tickets c) env id (revised env dto old) s.tickets rows t' keys
                done in
            let was : x ≡ old = ground (arith, find_ticket_sound id s old found) in
            (
              ground arith,
              ground arith,
              λ h n. ground arith,
              λ h. ground arith,
              λ j n. ground (arith, others j n),
            )
      ]
