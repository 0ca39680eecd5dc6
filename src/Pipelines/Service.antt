-- ===== src/Pipelines/Service.antt =====
-- crm-backend/src/modules/pipelines/pipelines.service.ts with pipelines.repository.ts.
pub mod Default
pub mod Order
use crm_with_blockchain_rag.Base.{
  Bool, List, Option, Result, String, [], err, every, false, given, if◌then◌else◌, includes, map,
  none, ok, some, true, ℕ, ◌&&◌, ◌+◌, ◌===◌, ◌∷◌,
}
use crm_with_blockchain_rag.Tenancy.{Operation}
use crm_with_blockchain_rag.Tenancy.Queries.{Env, row_tenant, tenant_filter, passes}
use crm_with_blockchain_rag.Tenancy.Scoped.{find_scoped, update_scoped, delete_scoped}
use crm_with_blockchain_rag.Pipelines.Types.{
  Pipeline, PipelineStage, PipelineClient, pipelines, stages, PipelineDb, PipelineError, not_found,
  business_rule, record_missing, constraint_violation, commit_failed,
}

-- `CreateStageDto`, and the entries of `DEFAULT_STAGES`.
pub record StageDto : Type 0 where
  pub name : String
  pub position : ℕ
  pub probability : ℕ
  pub is_won : Bool
  pub is_lost : Bool

abbrev default_stage : String → ℕ → ℕ → Bool → Bool → StageDto
default_stage name position probability is_won is_lost = record {
  name = name;
  position = position;
  probability = probability;
  is_won = is_won;
  is_lost = is_lost;
}

abbrev pub default_stages : List StageDto
default_stages =
    default_stage "Prospecting" 0 10 false false
    ∷ default_stage "Qualification" 1 25 false false
    ∷ default_stage "Proposal" 2 50 false false
    ∷ default_stage "Negotiation" 3 75 false false
    ∷ default_stage "Closed Won" 4 100 true false
    ∷ default_stage "Closed Lost" 5 0 false true
    ∷ []

-- `UpdatePipelineDto`, the fields that are sent.
pub record UpdatePipelineDto : Type 0 where
  pub name : Option String
  pub is_default : Option Bool

-- `UpdateStageDto`, the fields that are sent.
pub record UpdateStageDto : Type 0 where
  pub name : Option String
  pub position : Option ℕ
  pub probability : Option ℕ
  pub is_won : Option Bool
  pub is_lost : Option Bool

abbrev pub renamed : UpdatePipelineDto → Pipeline → Pipeline
renamed dto p = record p {
  name = given dto.name p.name;
  is_default = given dto.is_default p.is_default;
}

abbrev pub restaged : UpdateStageDto → PipelineStage → PipelineStage
restaged dto g = record g {
  name = given dto.name g.name;
  position = given dto.position g.position;
  probability = given dto.probability g.probability;
  is_won = given dto.is_won g.is_won;
  is_lost = given dto.is_lost g.is_lost;
}

abbrev pub undefault : Pipeline → Pipeline
undefault p = record p { is_default = false }

abbrev pub placed : ℕ → PipelineStage → PipelineStage
placed i g = record g { position = i }

-- The row of a stage of a pipeline.
abbrev pub stage_row : Env → String → String → StageDto → String → PipelineStage
stage_row env tenant_id pipeline_id dto id = record {
  id = id;
  tenant_id = row_tenant env "Stage" tenant_id;
  pipeline_id = pipeline_id;
  name = dto.name;
  position = dto.position;
  probability = dto.probability;
  is_won = dto.is_won;
  is_lost = dto.is_lost;
}

abbrev pub pipeline_row : Env → String → String → Bool → String → Pipeline
pipeline_row env tenant_id name is_default id = record {
  id = id;
  tenant_id = row_tenant env "Pipeline" tenant_id;
  name = name;
  is_default = is_default;
}

module _ (c : PipelineClient) where
  abbrev pub PipelineOutcome : Type 0 → Type 0
  PipelineOutcome A = Result PipelineError A × PipelineDb c

  unfoldable pub find_pipeline : Env → String → PipelineDb c → Option Pipeline
  find_pipeline env id s = find_scoped (pipelines c) env (λ p. p.id === id) s.pipelines

  unfoldable pub find_default : Env → PipelineDb c → Option Pipeline
  find_default env s = find_scoped (pipelines c) env (λ p. p.is_default) s.pipelines

  unfoldable pub find_pipeline_stage : Env → String → PipelineDb c → Option PipelineStage
  find_pipeline_stage env id s = find_scoped (stages c) env (λ g. g.id === id) s.stages

  unfoldable pub find_stages_by_pipeline_id : Env → String → PipelineDb c → List PipelineStage
  find_stages_by_pipeline_id env id s =
      c.stage.find_many
        (λ g.
          g.pipeline_id === id
          && passes (tenant_filter env "Stage" Operation.find_many none) g.tenant_id)
        s.stages

  -- `_clearDefaultFlag`; `none` where the client rejects the update.
  unfoldable pub clear_default_flag : Env → PipelineDb c → Option (PipelineDb c)
  clear_default_flag env s = elim (find_default env s) [
    | none ↦ some s
    | some p ↦ elim (update_scoped (pipelines c) env p.id undefault s.pipelines) [
      | none ↦ none
      | some (p', t) ↦ some (record s { pipelines = t })
    ]
  ]

  -- `createMany` of the default stages.
  pub create_stages : Env → String → String → List StageDto → c.stage.State → Option c.stage.State
  create_stages env tenant_id pipeline_id [] t = some t
  create_stages env tenant_id pipeline_id (dto ∷ dtos) t =
      elim (c.stage.create (stage_row env tenant_id pipeline_id dto) t) [
        | none ↦ none
        | some (g, t') ↦ create_stages env tenant_id pipeline_id dtos t'
      ]

  -- The transaction of `create`.
  unfoldable pub create_rows :
      Env → String → Bool → String → PipelineDb c → PipelineOutcome Pipeline
  unfolding create_stages
  create_rows env name is_default tenant_id s =
      elim (c.pipeline.create (pipeline_row env tenant_id name is_default) s.pipelines) [
        | none ↦ (err constraint_violation, s)
        | some (p, t) ↦ elim (create_stages env tenant_id p.id default_stages s.stages) [
          | none ↦ (err constraint_violation, s)
          | some u ↦
              if env.commits
              then (ok p, record { pipelines = t; stages = u })
              else (err commit_failed, s)
        ]
      ]

  -- The default is cleared before the transaction, and stays cleared if that fails.
  unfoldable pub create_pipeline :
      Env → String → Bool → String → PipelineDb c → PipelineOutcome Pipeline
  create_pipeline env name is_default tenant_id s =
      if is_default
      then elim (clear_default_flag env s) [
        | none ↦ (err record_missing, s)
        | some s₁ ↦ create_rows env name is_default tenant_id s₁
      ]
      else create_rows env name is_default tenant_id s

  -- The last step of `update`.
  unfoldable pub write_pipeline :
      Env → String → UpdatePipelineDto → PipelineDb c → PipelineOutcome Pipeline
  write_pipeline env id dto s =
      elim (update_scoped (pipelines c) env id (renamed dto) s.pipelines) [
        | none ↦ (err record_missing, s)
        | some (p, t) ↦ (ok p, record s { pipelines = t })
      ]

  unfoldable pub update_pipeline :
      Env → String → UpdatePipelineDto → PipelineDb c → PipelineOutcome Pipeline
  update_pipeline env id dto s = elim (find_pipeline env id s) [
    | none ↦ (err not_found, s)
    | some p ↦
        if given dto.is_default false
        then elim (clear_default_flag env s) [
          | none ↦ (err record_missing, s)
          | some s₁ ↦ write_pipeline env id dto s₁
        ]
        else write_pipeline env id dto s
  ]

  unfoldable pub delete_pipeline : Env → String → PipelineDb c → PipelineOutcome (Unit {0})
  delete_pipeline env id s = elim (find_pipeline env id s) [
    | none ↦ (err not_found, s)
    | some p ↦
        if p.is_default
        then (err business_rule, s)
        else elim (delete_scoped (pipelines c) env id s.pipelines) [
          | none ↦ (err record_missing, s)
          | some t ↦ (ok tt, record s { pipelines = t })
        ]
  ]

  unfoldable pub create_stage :
      Env → String → StageDto → String → PipelineDb c → PipelineOutcome PipelineStage
  create_stage env pipeline_id dto tenant_id s = elim (find_pipeline env pipeline_id s) [
    | none ↦ (err not_found, s)
    | some p ↦ elim (c.stage.create (stage_row env tenant_id pipeline_id dto) s.stages) [
      | none ↦ (err constraint_violation, s)
      | some (g, t) ↦ (ok g, record s { stages = t })
    ]
  ]

  unfoldable pub update_stage :
      Env → String → UpdateStageDto → PipelineDb c → PipelineOutcome PipelineStage
  update_stage env id dto s = elim (find_pipeline_stage env id s) [
    | none ↦ (err not_found, s)
    | some g ↦ elim (update_scoped (stages c) env id (restaged dto) s.stages) [
      | none ↦ (err record_missing, s)
      | some (g', t) ↦ (ok g', record s { stages = t })
    ]
  ]

  unfoldable pub delete_stage : Env → String → PipelineDb c → PipelineOutcome (Unit {0})
  delete_stage env id s = elim (find_pipeline_stage env id s) [
    | none ↦ (err not_found, s)
    | some g ↦ elim (delete_scoped (stages c) env id s.stages) [
      | none ↦ (err record_missing, s)
      | some t ↦ (ok tt, record s { stages = t })
    ]
  ]

  -- The position updates of `reorderStages`, from an index on.
  unfoldable pub place_stages : Env → ℕ → List String → c.stage.State → Option c.stage.State
  place_stages env i [] t = some t
  place_stages env i (id ∷ ids) t = elim (update_scoped (stages c) env id (placed i) t) [
    | none ↦ none
    | some (g, t') ↦ place_stages env (i + 1) ids t'
  ]

  unfoldable pub reorder_stages :
      Env → String → List String → PipelineDb c → PipelineOutcome (Option Pipeline)
  unfolding place_stages
  reorder_stages env pipeline_id stage_ids s = elim (find_pipeline env pipeline_id s) [
    | none ↦ (err not_found, s)
    | some p ↦
        let existing = map (λ g. g.id) (find_stages_by_pipeline_id env pipeline_id s) in
        if every (λ id. includes existing id) stage_ids
        then elim (place_stages env 0 stage_ids s.stages) [
          | none ↦ (err record_missing, s)
          | some t ↦
              let s' : PipelineDb c = record s { stages = t } in
              if env.commits
              then (ok (find_pipeline env pipeline_id s'), s')
              else (err commit_failed, s)
        ]
        else (err business_rule, s)
  ]
