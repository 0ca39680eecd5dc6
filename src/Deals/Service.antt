-- ===== src/Deals/Service.antt =====
-- crm-backend/src/modules/deals/deals.service.ts: `findById`, `create` and `moveStage`. The queues and
-- the sockets take every job; a failure of the payment queue is only logged by the source.
pub mod Moves
pub mod Intents
use crm_with_blockchain_rag.Base.{
  List, Option, Result, String, err, filled, find, if◌then◌else◌, ltb, none, ok, some, ℕ, ◌&&◌,
  ◌+++◌, ◌===◌, ◌||◌, ◌∷◌,
}
use crm_with_blockchain_rag.Tenancy.Queries.{Env, passes, row_tenant, tenant_filter}
use crm_with_blockchain_rag.Tenancy.{Operation}
use crm_with_blockchain_rag.Ledger.{polygon, chain_eq}
use crm_with_blockchain_rag.Payments.Repository.{or_else}
use crm_with_blockchain_rag.Wallets.Types.{is_tenant}
use crm_with_blockchain_rag.Deals.Types.{
  open_deal, won, lost, Deal, Stage, DealWallet, StageMove, DealEvent, deal_created, deal_updated,
  deal_won, deal_lost, deal_stage_changed, DealJob, HashPayload, RegisterJob, IntentJob, Outbox,
  DealClient, DealDb, DealError, not_found, business_rule, record_missing, constraint_violation,
  commit_failed,
}

-- `CreateDealDto`
pub record CreateDealDto : Type 0 where
  pub title : String
  pub value : ℕ
  pub currency : String
  pub pipeline_id : String
  pub stage_id : String

-- `MoveDealStageDto`
pub record MoveDealStageDto : Type 0 where
  pub stage_id : String
  pub lost_reason : Option String

-- The columns that a move sets.
abbrev pub moved : Env → Stage → MoveDealStageDto → Deal → Deal
moved env stage dto d =
    if stage.is_won
    then record d { stage_id = dto.stage_id; status = won; won_at = some env.now }
    else if stage.is_lost
    then record d {
      stage_id = dto.stage_id;
      status = lost;
      lost_at = some env.now;
      lost_reason = elim (filled dto.lost_reason) [ none ↦ d.lost_reason | some r ↦ some r ];
    }
    else record d { stage_id = dto.stage_id }

abbrev pub event_of : Stage → DealEvent
event_of stage =
    if stage.is_won then deal_won else if stage.is_lost then deal_lost else deal_stage_changed

-- The payload of a deal that was won.
abbrev pub payload_of : Env → String → String → Deal → HashPayload
payload_of env tenant_id id d = record {
  tenant_id = tenant_id;
  deal_id = id;
  title = d.title;
  value = d.value;
  currency = d.currency;
  won_at = or_else d.won_at env.now;
  owner_id = d.owner_id;
  pipeline_id = d.pipeline_id;
}

abbrev pub intent_key : String → String
intent_key id = "deal-won:" +++ id

-- The jobs and messages that follow every move, and the notification of the owner.
abbrev pub announce : Stage → String → Deal → Outbox → Outbox
announce stage tenant_id d o =
    let job : DealJob = record { tenant_id = tenant_id; event = event_of stage; deal = d } in
    record o {
      automation = job ∷ o.automation;
      webhooks = record { tenant_id = tenant_id; event = deal_updated; deal = d } ∷ o.webhooks;
      sockets = job ∷ o.sockets;
      notifications =
          if stage.is_won || stage.is_lost
          then elim (filled d.owner_id) [
            | none ↦ o.notifications
            | some owner ↦ (owner, job) ∷ o.notifications
          ]
          else o.notifications;
    }

module _ (c : DealClient) where
  abbrev pub DealOutcome : Type 0 → Type 0
  DealOutcome A = Result DealError A × DealDb c

  unfoldable pub find_deal : Env → String → DealDb c → Option Deal
  find_deal env id s =
      c.deal.find_first
        (λ d.
          d.id === id && passes (tenant_filter env "Deal" Operation.find_first none) d.tenant_id)
        s.deals

  -- The stage of a pipeline.
  unfoldable pub find_stage : Env → String → String → DealDb c → Option Stage
  find_stage env id pipeline_id s =
      c.stage.find_first
        (λ g.
          g.id === id
          && g.pipeline_id === pipeline_id
          && passes (tenant_filter env "Stage" Operation.find_first none) g.tenant_id)
        s.stages

  unfoldable pub find_by_tenant : Env → String → c.wallet.State → List DealWallet
  find_by_tenant env tenant_id wallets =
      c.wallet.find_many
        (λ w.
          passes (tenant_filter env "Wallet" Operation.find_many (some tenant_id)) w.tenant_id
          && w.active)
        wallets

  abbrev pub record_move :
      Env → String → String → Option String → String → String → DealDb c → DealDb c
  record_move env tenant_id id from to actor s = record s {
    history =
        record {
          deal_id = id;
          tenant_id = row_tenant env "DealStageHistory" tenant_id;
          from_stage_id = from;
          to_stage_id = to;
          moved_by_id = actor;
        }
        ∷ s.history;
  }

  unfoldable pub create_deal : Env → CreateDealDto → String → String → DealDb c → DealOutcome Deal
  create_deal env dto owner_id tenant_id s = elim (find_stage env dto.stage_id dto.pipeline_id s) [
    | none ↦ (err business_rule, s)
    | some stage ↦
        elim (c.deal.create
          (λ i. record {
            id = i;
            tenant_id = row_tenant env "Deal" tenant_id;
            title = dto.title;
            value = dto.value;
            currency = dto.currency;
            status = open_deal;
            pipeline_id = dto.pipeline_id;
            stage_id = dto.stage_id;
            owner_id = filled (some owner_id);
            won_at = none;
            lost_at = none;
            lost_reason = none;
          })
          s.deals) [
            | none ↦ (err constraint_violation, s)
            | some (d, t) ↦
                let job : DealJob = record {
                  tenant_id = tenant_id;
                  event = deal_created;
                  deal = d;
                } in
                let s₁ =
                  record_move env tenant_id d.id none dto.stage_id owner_id
                    (record s { deals = t }) in
                (
                  ok d,
                  record s₁ {
                    outbox = record s₁.outbox {
                      automation = job ∷ s₁.outbox.automation;
                      webhooks = job ∷ s₁.outbox.webhooks;
                      sockets = job ∷ s₁.outbox.sockets;
                    };
                  },
                )
          ]
  ]

  -- The payment intent of a won deal, where its currency and value ask for one and there is a wallet.
  unfoldable pub queue_intent :
      Env → String → String → Deal → c.wallet.State → List IntentJob → List IntentJob
  queue_intent env tenant_id id d wallets jobs =
      if d.currency === "USDC" && ltb 0 d.value
      then elim (find (λ w. is_tenant w.type && chain_eq w.chain polygon)
          (find_by_tenant env tenant_id wallets)) [
            | none ↦ jobs
            | some w ↦
                record {
                  tenant_id = tenant_id;
                  wallet_id = w.id;
                  amount = d.value;
                  idempotency_key = intent_key id;
                  deal_id = id;
                }
                ∷ jobs
          ]
      else jobs

  -- What follows a move to a won stage.
  abbrev pub settle_won : Env → Stage → String → String → Deal → DealDb c → Outbox → Outbox
  settle_won env stage tenant_id id d s o =
      if stage.is_won
      then record o {
        registrations =
            record {
              tenant_id = tenant_id;
              entity_id = id;
              data_hash = c.compute_deal_hash (payload_of env tenant_id id d);
              payload_snapshot = payload_of env tenant_id id d;
            }
            ∷ o.registrations;
        intents = queue_intent env tenant_id id d s.wallets o.intents;
      }
      else o

  -- `tx.deal.update`, under the tenant of the context.
  unfoldable pub update_deal : Env → String → (Deal → Deal) → DealDb c → Option (Deal × DealDb c)
  update_deal env id f s = elim (c.deal.find_unique id s.deals) [
    | none ↦ none
    | some d ↦
        if passes (tenant_filter env "Deal" Operation.update none) d.tenant_id
        then elim (c.deal.update id f s.deals) [
          | none ↦ none
          | some (d', t) ↦ some (d', record s { deals = t })
        ]
        else none
  ]

  unfoldable pub move_stage :
      Env → String → MoveDealStageDto → String → String → DealDb c → DealOutcome Deal
  move_stage env id dto actor_id tenant_id s = elim (find_deal env id s) [
    | none ↦ (err not_found, s)
    | some d ↦ elim (find_stage env dto.stage_id d.pipeline_id s) [
      | none ↦ (err business_rule, s)
      | some stage ↦ elim (update_deal env id (moved env stage dto) s) [
        | none ↦ (err record_missing, s)
        | some (d', s₁) ↦
            if env.commits
            then (let s₂ =
                  record_move env tenant_id id (some d.stage_id) dto.stage_id actor_id s₁ in
                (
                  ok d',
                  record s₂ {
                    outbox =
                        settle_won env stage tenant_id id d' s₂
                          (announce stage tenant_id d' s₂.outbox);
                  },
                ))
            else (err commit_failed, s)
      ]
    ]
  ]
