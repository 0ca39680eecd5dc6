-- ===== src/Deals/Service/Moves.antt =====
-- What a move between stages does.
use crm_with_blockchain_rag.Base.{
  Option-cases, String, arith, eq_iff, err, if◌then◌else◌, inl, inr, ok, some, ◌===◌, ◌∷◌, ◌≡◌, ◌≢◌,
}
use crm_with_blockchain_rag.Tenancy.Queries.{Env, row_tenant}
use crm_with_blockchain_rag.Deals.Types.{Deal, Stage, DealClient, DealDb, DealError}
use crm_with_blockchain_rag.Deals.Service.{
  MoveDealStageDto, moved, payload_of, find_deal, find_stage, payload_of, update_deal, move_stage,
  queue_intent,
}

moved-id :
    (env : Env) (stage : Stage) (dto : MoveDealStageDto) (d : Deal)
    → (moved env stage dto d).id ≡ d.id
moved-id env stage dto d = ground arith

module _ (c : DealClient) (env : Env) where
  -- An update that the client makes is of the row under the key, and of no other.
  update_deal-some :
      (id : String) (f : Deal → Deal) (s s' : DealDb c) (q : Deal)
      → ((d : Deal) → (f d).id ≡ d.id)
      → update_deal c env id f s ≡ some (q, s')
      → (d : Deal) × (c.deal.find_unique id s.deals ≡ some d)
        × (q ≡ f d)
        × (s' ≡ record s { deals = s'.deals })
        × ((j : String)
            → c.deal.find_unique j s'.deals
              ≡ (if id === j then some (f d) else c.deal.find_unique j s.deals))
  unfolding update_deal
  update_deal-some id f s s' q hk e = elim (Option-cases (c.deal.update id f s.deals)) [
    | inl missed ↦ ground arith
    | inr ((q', t), done) ↦
        let (d, at, same, after) = c.deal.update_some id f s.deals t q' keys done in
        (d, at, ground arith, ground arith, λ j. ground (arith, after j))
  ]
    where
      keys : (d : Deal) → c.deal.key (f d) ≡ c.deal.key d
      keys d = cc (c.deal_keyed d, c.deal_keyed (f d), hk d)

  -- The deal that is found is the one under its id.
  find_deal_sound :
      (id : String) (s : DealDb c) (d : Deal)
      → find_deal c env id s ≡ some d
      → c.deal.find_unique id s.deals ≡ some d
  unfolding find_deal
  find_deal_sound id s d e =
      let (p, at) = c.deal.find_first_sound _ s.deals d e in
      ground (arith, c.deal_keyed d, eq_iff d.id id)

  -- What a move that succeeds has done.
  pub record Moved (id : String) (dto : MoveDealStageDto) (actor_id tenant_id : String)
      (s s' : DealDb c) (q : Deal) : Type 0 where
    pub deal : Deal
    pub found : find_deal c env id s ≡ some deal
    pub stage : Stage
    pub stage_found : find_stage c env dto.stage_id deal.pipeline_id s ≡ some stage
    pub result : q ≡ moved env stage dto deal
    pub stored : c.deal.find_unique id s'.deals ≡ some q
    pub others_kept :
        (j : String) → id ≢ j → c.deal.find_unique j s'.deals ≡ c.deal.find_unique j s.deals
    pub recorded :
        s'.history
        ≡ record {
          deal_id = id;
          tenant_id = row_tenant env "DealStageHistory" tenant_id;
          from_stage_id = some deal.stage_id;
          to_stage_id = dto.stage_id;
          moved_by_id = actor_id;
        }
          ∷ s.history
    pub registered : s'.outbox.registrations ≡ (
        if stage.is_won
        then record {
          tenant_id = tenant_id;
          entity_id = id;
          data_hash = c.compute_deal_hash (payload_of env tenant_id id q);
          payload_snapshot = payload_of env tenant_id id q;
        }
          ∷ s.outbox.registrations
        else s.outbox.registrations)
    pub intents : s'.outbox.intents ≡ (
        if stage.is_won
        then queue_intent c env tenant_id id q s.wallets s.outbox.intents
        else s.outbox.intents)

  -- A move that succeeds found the deal and, in the deal's own pipeline, the stage; it has stored the
  -- deal with the columns of the move and no other deal changed, has recorded the move from the old
  -- stage to the new one, and has queued one registration exactly if the stage is a won stage,
  -- which is that of the deal under its identity, with the payload of the stored deal and the hash of
  -- this payload.
  pub move_stage_lem :
      (id : String) (dto : MoveDealStageDto) (actor_id tenant_id : String) (s s' : DealDb c)
      (q : Deal)
      → move_stage c env id dto actor_id tenant_id s ≡ (ok q, s')
      → Moved id dto actor_id tenant_id s s' q
  unfolding move_stage
  move_stage_lem id dto actor_id tenant_id s s' q e = elim (Option-cases (find_deal c env id s)) [
    | inl missing ↦ ground arith
    | inr (d, found) ↦ elim (Option-cases (find_stage c env dto.stage_id d.pipeline_id s)) [
      | inl elsewhere ↦ ground arith
      | inr (stage, there) ↦ elim (Option-cases (update_deal c env id (moved env stage dto) s)) [
        | inl missed ↦ ground arith
        | inr ((q', s₁), done) ↦
            let (x, at, same, kept, after) =
              update_deal-some id (moved env stage dto) s s₁ q' (moved-id env stage dto) done in
            let held = find_deal_sound id s d found in
            record {
              deal = d;
              found = found;
              stage = stage;
              stage_found = there;
              result = ground arith;
              stored = ground (arith, after id, eq_iff id id);
              others_kept = λ j n. ground (arith, after j, eq_iff id j);
              recorded = ground arith;
              registered = ground arith;
              intents = ground arith;
            }
      ]
    ]
  ]

  -- A move that throws leaves everything as it was.
  pub move_stage_failed :
      (id : String) (dto : MoveDealStageDto) (actor_id tenant_id : String) (s : DealDb c)
      (e : DealError)
      → (move_stage c env id dto actor_id tenant_id s).0 ≡ err e
      → (move_stage c env id dto actor_id tenant_id s).1 ≡ s
  unfolding move_stage
  move_stage_failed id dto actor_id tenant_id s e h = ground arith
