-- ===== src/Tests/Pipelines.antt =====
-- crm-backend/src/modules/pipelines/pipelines.service.ts at concrete inputs.
use crm_with_blockchain_rag.Base.{
  List, String, [], arith, eq_iff, every, false, get_elem?, includes, map, none, refl, some, true,
  ℕ, ◌∷◌, ◌≡◌,
}
use crm_with_blockchain_rag.Prisma.Memory.Instance.{memory}
use crm_with_blockchain_rag.Tenancy.{all_operations, current_tenant}
use crm_with_blockchain_rag.Tenancy.Scoped.{find_scoped, update_scoped}
use crm_with_blockchain_rag.Pipelines.Types.{Pipeline, PipelineStage, PipelineClient, PipelineDb}
use crm_with_blockchain_rag.Pipelines.Service.{
  stage_row, placed, UpdatePipelineDto, find_pipeline, find_stages_by_pipeline_id, place_stages,
  create_pipeline, update_pipeline, delete_pipeline, reorder_stages,
}
use crm_with_blockchain_rag.Pipelines.Service.Order.{reorder_stages_lem}
use crm_with_blockchain_rag.Pipelines.Service.Default.{OneDefault}
use crm_with_blockchain_rag.Pipelines.Service.Default.Kept.{OneDefault-kept}
use crm_with_blockchain_rag.Tests.Rail.{request}

abbrev tables : PipelineClient
tables = record {
  pipeline = memory (λ p. p.id);
  stage = memory (λ g. g.id);
  pipeline_keyed = λ p. refl;
  stage_keyed = λ g. refl;
}

abbrev sales : Pipeline
sales = record { id = "p1"; tenant_id = "t1"; name = "Sales"; is_default = true }

abbrev stage : String → ℕ → PipelineStage
stage id position =
    stage_row request "t1" "p1"
      (record { name = id; position = position; probability = 50; is_won = false; is_lost = false })
      id

abbrev start : PipelineDb tables
start = record {
  pipelines = record { rows = sales ∷ []; supply = "p2" ∷ [] };
  stages = record {
    rows = stage "g1" 0 ∷ stage "g2" 1 ∷ stage "g3" 2 ∷ [];
    supply = "g4" ∷ "g5" ∷ "g6" ∷ "g7" ∷ "g8" ∷ "g9" ∷ [];
  };
}

abbrev order : List String
order = "g3" ∷ "g1" ∷ []

abbrev reordered : PipelineDb tables
reordered = (reorder_stages tables request "p1" order start).1

OneDefault-start : OneDefault tables "t1" start.pipelines
OneDefault-start j k p q pj qk pt qt pd qd = ground (arith, eq_iff "p1" j, eq_iff "p1" k)

reorder_stages_lem_example :
    ((k : ℕ) (id : String)
      → get_elem? order k ≡ some id
      → (g : PipelineStage) × (tables.stage.find_unique id start.stages ≡ some g)
        × (tables.stage.find_unique id reordered.stages ≡ some (placed k g)))
    × ((j : String)
        → includes order j ≡ false
        → tables.stage.find_unique j reordered.stages ≡ tables.stage.find_unique j start.stages)
    × (reordered.pipelines ≡ start.pipelines)
    × (every
          (λ id.
            includes (map (λ g. g.id) (find_stages_by_pipeline_id tables request "p1" start)) id)
          order
        ≡ true)
unfolding reorder_stages place_stages find_pipeline find_stages_by_pipeline_id find_scoped
    update_scoped all_operations current_tenant
reorder_stages_lem_example =
    reorder_stages_lem tables request "p1" order start reordered (some sales) (refl, (refl, tt))
      refl

abbrev prefer : UpdatePipelineDto
prefer = record { name = none; is_default = some true }

OneDefault-kept_example :
    OneDefault tables "t1" (create_pipeline tables request "Support" true "t1" start).1.pipelines
    × OneDefault tables "t1" (update_pipeline tables request "p1" prefer start).1.pipelines
    × OneDefault tables "t1" (delete_pipeline tables request "p1" start).1.pipelines
unfolding current_tenant
OneDefault-kept_example =
    OneDefault-kept tables request "t1" refl "Support" "p1" true prefer start OneDefault-start
