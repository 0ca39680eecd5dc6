-- ===== src/Pipelines/Types.antt =====
-- The rows that crm-backend/src/modules/pipelines/pipelines.service.ts reads and writes. Probabilities
-- are in hundredths; the service only passes them on.
use crm_with_blockchain_rag.Base.{Bool, String, ℕ, ◌≡◌}
use crm_with_blockchain_rag.Prisma.{Table}
use crm_with_blockchain_rag.Tenancy.Scoped.{Scoped}

pub record Pipeline : Type 0 where
  pub id : String
  pub tenant_id : String
  pub name : String
  pub is_default : Bool

pub record PipelineStage : Type 0 where
  pub id : String
  pub tenant_id : String
  pub pipeline_id : String
  pub name : String
  pub position : ℕ
  pub probability : ℕ
  pub is_won : Bool
  pub is_lost : Bool

pub record PipelineClient : Type 1 where
  pub pipeline : Table Pipeline
  pub stage : Table PipelineStage
  pub pipeline_keyed : (p : Pipeline) → pipeline.key p ≡ p.id
  pub stage_keyed : (g : PipelineStage) → stage.key g ≡ g.id

abbrev pub pipelines : PipelineClient → Scoped Pipeline
pipelines c = record { table = c.pipeline; tenant = λ p. p.tenant_id; model = "Pipeline" }

abbrev pub stages : PipelineClient → Scoped PipelineStage
stages c = record { table = c.stage; tenant = λ g. g.tenant_id; model = "Stage" }

pub record PipelineDb (c : PipelineClient) : Type 0 where
  pub pipelines : c.pipeline.State
  pub stages : c.stage.State

pub data PipelineError : Type 0 where
  not_found business_rule record_missing constraint_violation commit_failed : PipelineError
