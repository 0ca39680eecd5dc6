-- ===== src/Deals/Board.antt =====
-- crm-backend/src/modules/deals/deals.service.ts: `getKanbanBoard`. The sums of values are exact.
pub mod Columns
use crm_with_blockchain_rag.Base.{
  List, String, [], keep, length, map, none, ℕ, ◌&&◌, ◌+◌, ◌===◌, ◌∷◌,
}
use crm_with_blockchain_rag.Tenancy.Queries.{Env, passes, tenant_filter}
use crm_with_blockchain_rag.Tenancy.{Operation}
use crm_with_blockchain_rag.Deals.Types.{Deal, is_open, Stage, DealClient, DealDb}

-- One column of the board.
pub record Column : Type 0 where
  pub stage : Stage
  pub deals : List Deal
  pub count : ℕ
  pub total_value : ℕ

-- `reduce((sum, d) => sum + Number(d.value), 0)`
pub sum_values : List Deal → ℕ
sum_values [] = 0
sum_values (d ∷ ds) = d.value + sum_values ds

unfoldable pub column_of : List Deal → Stage → Column
unfolding sum_values
column_of deals stage =
    let here = keep (λ d. d.stage_id === stage.id) deals in
    record { stage = stage; deals = here; count = length here; total_value = sum_values here }

-- The stages of the pipeline, and its open deals; the order of the rows is that of the client.
unfoldable pub pipeline_stages : (c : DealClient) → Env → String → DealDb c → List Stage
pipeline_stages c env pipeline_id s =
    c.stage.find_many
      (λ g.
        g.pipeline_id === pipeline_id
        && passes (tenant_filter env "Stage" Operation.find_many none) g.tenant_id)
      s.stages

unfoldable pub open_deals : (c : DealClient) → Env → String → DealDb c → List Deal
open_deals c env pipeline_id s =
    c.deal.find_many
      (λ d.
        d.pipeline_id === pipeline_id
        && is_open d.status
        && passes (tenant_filter env "Deal" Operation.find_many none) d.tenant_id)
      s.deals

unfoldable pub get_kanban_board : (c : DealClient) → Env → String → DealDb c → List Column
get_kanban_board c env pipeline_id s =
    map (column_of (open_deals c env pipeline_id s)) (pipeline_stages c env pipeline_id s)
