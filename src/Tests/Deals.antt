-- ===== src/Tests/Deals.antt =====
-- crm-backend/src/modules/deals/deals.service.ts at concrete inputs.
use crm_with_blockchain_rag.Base.{
  Bool, String, [], false, length, none, ok, refl, some, true, ◌+++◌, ◌∷◌, ◌≡◌, ◌⊎◌,
}
use crm_with_blockchain_rag.Prisma.Memory.Instance.{memory}
use crm_with_blockchain_rag.Tenancy.{all_operations, current_tenant}
use crm_with_blockchain_rag.Ledger.{polygon}
use crm_with_blockchain_rag.Wallets.Types.{tenant}
use crm_with_blockchain_rag.Deals.Types.{
  open_deal, won, Deal, DealStatus, Stage, IntentJob, DealClient, DealDb,
}
use crm_with_blockchain_rag.Deals.Service.{
  MoveDealStageDto, moved, find_deal, find_stage, find_by_tenant, queue_intent, update_deal,
  move_stage,
}
use crm_with_blockchain_rag.Deals.Service.Moves.{Moved, move_stage_lem}
use crm_with_blockchain_rag.Deals.Service.Intents.{IsIntent, move_stage_intents}
use crm_with_blockchain_rag.Tests.Rail.{request}

abbrev tables : DealClient
tables = record {
  deal = memory (λ d. d.id);
  stage = memory (λ g. g.id);
  wallet = memory (λ w. w.id);
  compute_deal_hash = λ p. "0x" +++ p.title;
  deal_keyed = λ d. refl;
}

abbrev deal_row : String → DealStatus → String → Deal
deal_row id status stage_id = record {
  id = id;
  tenant_id = "t1";
  title = "Deal " +++ id;
  value = 250_000;
  currency = "USDC";
  status = status;
  pipeline_id = "pl";
  stage_id = stage_id;
  owner_id = some "u1";
  won_at = none;
  lost_at = none;
  lost_reason = none;
}

abbrev stage_row : String → Bool → Bool → Stage
stage_row id is_won is_lost = record {
  id = id;
  tenant_id = "t1";
  pipeline_id = "pl";
  is_won = is_won;
  is_lost = is_lost;
}

abbrev start : DealDb tables
start = record {
  deals = record { rows = deal_row "d1" open_deal "g1" ∷ deal_row "d2" won "g2" ∷ []; supply = [] };
  stages = record {
    rows = stage_row "g1" false false ∷ stage_row "g2" true false ∷ stage_row "g3" false true ∷ [];
    supply = [];
  };
  wallets = record {
    rows =
        record { id = "w1"; tenant_id = "t1"; type = tenant; chain = polygon; active = true } ∷ [];
    supply = [];
  };
  history = [];
  outbox = record {
    automation = [];
    webhooks = [];
    sockets = [];
    notifications = [];
    registrations = [];
    intents = [];
  };
}

abbrev to_stage : String → MoveDealStageDto
to_stage id = record { stage_id = id; lost_reason = none }

abbrev won_d1 : Deal
won_d1 = moved request (stage_row "g2" true false) (to_stage "g2") (deal_row "d1" open_deal "g1")

abbrev kept_d2 : Deal
kept_d2 = moved request (stage_row "g1" false false) (to_stage "g1") (deal_row "d2" won "g2")

abbrev after : String → String → DealDb tables
after id stage = (move_stage tables request id (to_stage stage) "u1" "t1" start).1

move_won :
    move_stage tables request "d1" (to_stage "g2") "u1" "t1" start ≡ (ok won_d1, after "d1" "g2")
unfolding move_stage find_deal find_stage find_by_tenant queue_intent update_deal all_operations
    current_tenant
move_won = refl

-- The intent is queued.
move_won_intents : length (after "d1" "g2").outbox.intents ≡ 1
unfolding move_stage find_deal find_stage find_by_tenant queue_intent update_deal all_operations
    current_tenant
move_won_intents = refl

move_back :
    move_stage tables request "d2" (to_stage "g1") "u1" "t1" start ≡ (ok kept_d2, after "d2" "g1")
unfolding move_stage find_deal find_stage find_by_tenant queue_intent update_deal all_operations
    current_tenant
move_back = refl

move_stage_lem_example :
    Moved tables request "d1" (to_stage "g2") "u1" "t1" start (after "d1" "g2") won_d1
move_stage_lem_example =
    move_stage_lem tables request "d1" (to_stage "g2") "u1" "t1" start (after "d1" "g2") won_d1
      move_won

move_stage_intents_example :
    ((after "d1" "g2").outbox.intents ≡ start.outbox.intents)
    ⊎ ((job : IntentJob) × ((after "d1" "g2").outbox.intents ≡ job ∷ start.outbox.intents)
        × (won_d1.status ≡ won)
        × IsIntent tables request "t1" "d1" won_d1 job)
move_stage_intents_example =
    move_stage_intents tables request "d1" (to_stage "g2") "u1" "t1" start (after "d1" "g2") won_d1
      move_won
