-- ===== src/Tickets/Service/Replies.antt =====
-- Who may change a reply.
use crm_with_blockchain_rag.Base.{
  Option-cases, String, arith, eq_iff, err, inl, inr, none, ok, some, true, ◌↔◌, ◌≡◌, ◌≢◌, ◌⊎◌,
}
use crm_with_blockchain_rag.Tenancy.Queries.{Env}
use crm_with_blockchain_rag.Tenancy.Scoped.{delete_scoped, delete_scoped-some}
use crm_with_blockchain_rag.Tickets.Types.{TicketReply, TicketClient, replies, TicketDb, forbidden}
use crm_with_blockchain_rag.Tickets.Service.{is_author, find_reply, update_reply, delete_reply}

module _ (c : TicketClient) (env : Env) where
  is_author_iff :
      (r : TicketReply) (user : String) → (is_author r user ≡ true) ↔ (r.author_id ≡ some user)
  is_author_iff r user = elim (Option-cases (r.author_id)) [
    | inl nobody ↦ (λ h. ground arith, λ h. ground arith)
    | inr (a, written) ↦ (λ h. ground (arith, eq_iff a user), λ h. ground (arith, eq_iff a user))
  ]

  -- Of a reply that is found, a user who is neither its author nor an administrator can change
  -- nothing; only its author changes its body, an administrator not; and a deletion that succeeds, by
  -- the author or an administrator, removes this reply alone.
  pub reply_rights :
      (id user role body : String) (s : TicketDb c) (r : TicketReply)
      → find_reply c env id s ≡ some r
      → (r.author_id ≢ some user → update_reply c env id body user s ≡ (err forbidden, s))
        × (r.author_id ≢ some user
            → role ≢ "ADMIN"
            → role ≢ "SUPER_ADMIN"
            → delete_reply c env id user role s ≡ (err forbidden, s))
        × ((s' : TicketDb c)
            → delete_reply c env id user role s ≡ (ok tt, s')
            → ((r.author_id ≡ some user) ⊎ (role ≡ "ADMIN") ⊎ (role ≡ "SUPER_ADMIN"))
              × (c.reply.find_unique id s'.replies ≡ none)
              × ((j : String)
                  → id ≢ j
                  → c.reply.find_unique j s'.replies ≡ c.reply.find_unique j s.replies)
              × (s'.tickets ≡ s.tickets))
  unfolding update_reply delete_reply
  reply_rights id user role body s r found =
      let author = is_author_iff r user in
      let admin = eq_iff role "ADMIN" in
      let super = eq_iff role "SUPER_ADMIN" in
      (
        λ h. ground arith,
        λ h k l. ground arith,
        λ s' e. elim (Option-cases (delete_scoped (replies c) env id s.replies)) [
          | inl missed ↦ ground arith
          | inr (rows, done) ↦
              let (gone, others) = delete_scoped-some (replies c) env id s.replies rows done in
              (ground arith, ground arith, λ j n. ground (arith, others j n), ground arith)
        ],
      )
