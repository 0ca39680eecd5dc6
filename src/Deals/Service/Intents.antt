-- ===== src/Deals/Service/Intents.antt =====
-- Payment intents of won deals, and deals that are taken out of a won stage.
use crm_with_blockchain_rag.Base.{
  Bool, Bool-cases, List, Option-cases, String, [], arith, eq_iff, find, inl, inr, ltb, ok, refl,
  some, true, ◌&&◌, ◌<◌, ◌===◌, ◌∷◌, ◌≡◌, ◌⊎◌,
}
use crm_with_blockchain_rag.Tenancy.Queries.{Env}
use crm_with_blockchain_rag.Ledger.{polygon, chain_eq}
use crm_with_blockchain_rag.Wallets.Types.{is_tenant}
use crm_with_blockchain_rag.Deals.Types.{Deal, won, IntentJob, DealClient, DealDb}
use crm_with_blockchain_rag.Deals.Service.{
  MoveDealStageDto, intent_key, find_by_tenant, queue_intent, move_stage,
}
use crm_with_blockchain_rag.Deals.Service.Moves.{move_stage_lem}

find-holds {ℓ} : {A : Type ℓ} (p : A → Bool) (l : List A) (a : A) → find p l ≡ some a → p a ≡ true
find-holds p [] a e = cc
find-holds p (x ∷ l) a e = ground (arith, find-holds p l a)

module _ (c : DealClient) (env : Env) where
  -- An intent for a deal worth something in USDC, into a wallet of the tenant on Polygon.
  pub record IsIntent (tenant_id id : String) (d : Deal) (job : IntentJob) : Type 0 where
    pub in_usdc : d.currency ≡ "USDC"
    pub worth : 0 < d.value
    pub amount : job.amount ≡ d.value
    pub keyed : job.idempotency_key ≡ intent_key id
    pub for_deal : job.deal_id ≡ id
    pub for_tenant : job.tenant_id ≡ tenant_id

  queue_intent-cases :
      (tenant_id id : String) (d : Deal) (wallets : c.wallet.State) (jobs : List IntentJob)
      → (queue_intent c env tenant_id id d wallets jobs ≡ jobs)
        ⊎ ((job : IntentJob) × (queue_intent c env tenant_id id d wallets jobs ≡ job ∷ jobs)
            × IsIntent tenant_id id d job)
  unfolding queue_intent
  queue_intent-cases tenant_id id d wallets jobs =
      elim (Bool-cases (d.currency === "USDC" && ltb 0 d.value)) [
        | inr not_asked ↦ inl (ground arith)
        | inl asked ↦
            elim (Option-cases (
              find (λ w. is_tenant w.type && chain_eq w.chain polygon)
                (find_by_tenant c env tenant_id wallets))) [
                  | inl nowhere ↦ inl (ground arith)
                  | inr (w, into) ↦ inr (
                    record {
                      tenant_id = tenant_id;
                      wallet_id = w.id;
                      amount = d.value;
                      idempotency_key = intent_key id;
                      deal_id = id;
                    },
                    ground arith,
                    record {
                      in_usdc = ground (arith, eq_iff d.currency "USDC");
                      worth = ground arith;
                      amount = refl;
                      keyed = refl;
                      for_deal = refl;
                      for_tenant = refl;
                    },
                  )
                ]
      ]

  -- A move that succeeds queues at most one payment intent, and one only for a deal that the move
  -- stores as won, in USDC and worth more than nothing: with the deal's value as its amount and a
  -- key that depends on the deal alone.
  pub move_stage_intents :
      (id : String) (dto : MoveDealStageDto) (actor_id tenant_id : String) (s s' : DealDb c)
      (q : Deal)
      → move_stage c env id dto actor_id tenant_id s ≡ (ok q, s')
      → (s'.outbox.intents ≡ s.outbox.intents)
        ⊎ ((job : IntentJob) × (s'.outbox.intents ≡ job ∷ s.outbox.intents)
            × (q.status ≡ won)
            × IsIntent tenant_id id q job)
  move_stage_intents id dto actor_id tenant_id s s' q e =
      let done = move_stage_lem c env id dto actor_id tenant_id s s' q e in
      elim (Bool-cases (done.stage.is_won)) [
        | inr other ↦ inl (ground (arith, done.intents))
        | inl is_won ↦ elim (queue_intent-cases tenant_id id q s.wallets s.outbox.intents) [
          | inl kept ↦ inl (ground (arith, done.intents))
          | inr (job, queued, right) ↦
              inr (job, ground (arith, done.intents), ground (arith, done.result), right)
        ]
      ]
