-- ===== src/Deals/Types.antt =====
-- The rows that crm-backend/src/modules/deals/deals.service.ts reads and writes, and the jobs it hands
-- to the queues. Times are numbers of milliseconds, values hundredths of the deal's currency.
use crm_with_blockchain_rag.Base.{Bool, List, Option, String, false, true, ℕ, ◌≡◌}
use crm_with_blockchain_rag.Prisma.{Table}
use crm_with_blockchain_rag.Ledger.{Chain}
use crm_with_blockchain_rag.Wallets.Types.{WalletType}

pub data DealStatus : Type 0 where
  open_deal won lost on_hold : DealStatus

abbrev pub is_open : DealStatus → Bool
is_open open_deal = true
is_open _ = false

pub record Deal : Type 0 where
  pub id : String
  pub tenant_id : String
  pub title : String
  pub value : ℕ
  pub currency : String
  pub status : DealStatus
  pub pipeline_id : String
  pub stage_id : String
  pub owner_id : Option String
  pub won_at : Option ℕ
  pub lost_at : Option ℕ
  pub lost_reason : Option String

pub record Stage : Type 0 where
  pub id : String
  pub tenant_id : String
  pub pipeline_id : String
  pub is_won : Bool
  pub is_lost : Bool

-- The columns of a wallet that a won deal looks at.
pub record DealWallet : Type 0 where
  pub id : String
  pub tenant_id : String
  pub type : WalletType
  pub chain : Chain
  pub active : Bool

-- A row of `DealStageHistory`.
pub record StageMove : Type 0 where
  pub deal_id : String
  pub tenant_id : String
  pub from_stage_id : Option String
  pub to_stage_id : String
  pub moved_by_id : String

pub data DealEvent : Type 0 where
  deal_created deal_updated deal_won deal_lost deal_stage_changed : DealEvent

-- A job of the automation, webhook or notification queue, or a message to the tenant's sockets.
pub record DealJob : Type 0 where
  pub tenant_id : String
  pub event : DealEvent
  pub deal : Deal

-- The payload that is hashed for the chain.
pub record HashPayload : Type 0 where
  pub tenant_id : String
  pub deal_id : String
  pub title : String
  pub value : ℕ
  pub currency : String
  pub won_at : ℕ
  pub owner_id : Option String
  pub pipeline_id : String

pub record RegisterJob : Type 0 where
  pub tenant_id : String
  pub entity_id : String
  pub data_hash : String
  pub payload_snapshot : HashPayload

pub record IntentJob : Type 0 where
  pub tenant_id : String
  pub wallet_id : String
  pub amount : ℕ
  pub idempotency_key : String
  pub deal_id : String

-- What the service hands on, the newest first.
pub record Outbox : Type 0 where
  pub automation : List DealJob
  pub webhooks : List DealJob
  pub sockets : List DealJob
  pub notifications : List (String × DealJob)
  pub registrations : List RegisterJob
  pub intents : List IntentJob

-- The tables behind the service, and the hash of `BlockchainService.computeDealHash`, which a
-- library computes.
pub record DealClient : Type 1 where
  pub deal : Table Deal
  pub stage : Table Stage
  pub wallet : Table DealWallet
  pub compute_deal_hash : HashPayload → String
  pub deal_keyed : (d : Deal) → deal.key d ≡ d.id

pub record DealDb (c : DealClient) : Type 0 where
  pub deals : c.deal.State
  pub stages : c.stage.State
  pub wallets : c.wallet.State
  pub history : List StageMove
  pub outbox : Outbox

pub data DealError : Type 0 where
  not_found business_rule record_missing constraint_violation commit_failed : DealError
