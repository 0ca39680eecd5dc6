-- ===== src/Pipelines/Service/Order.antt =====
-- The order of the stages.
use crm_with_blockchain_rag.Base.{
  List, Option, Option-cases, String, Unique, [], arith, eq_iff, every, false, get_elem?, includes,
  includes_of_get_elem?, inl, inr, map, ok, some, suc, sym, true, zero, ℕ, ◌+◌, ◌∙◌, ◌∷◌, ◌≡◌, ◌≢◌,
}
use crm_with_blockchain_rag.Tenancy.Queries.{Env}
use crm_with_blockchain_rag.Tenancy.Scoped.{update_scoped, update_scoped-some}
use crm_with_blockchain_rag.Pipelines.Types.{
  Pipeline, PipelineStage, PipelineClient, stages, PipelineDb,
}
use crm_with_blockchain_rag.Pipelines.Service.{
  placed, place_stages, find_stages_by_pipeline_id, reorder_stages,
}

module _ (c : PipelineClient) (env : Env) where
  placed-key : (i : ℕ) (g : PipelineStage) → c.stage.key (placed i g) ≡ c.stage.key g
  placed-key i g = c.stage_keyed (placed i g) ∙ sym (c.stage_keyed g)

  -- A stage that is not in the list keeps its place.
  place_stages-keeps :
      (i : ℕ) (ids : List String) (t t' : c.stage.State) (j : String)
      → place_stages c env i ids t ≡ some t'
      → includes ids j ≡ false
      → c.stage.find_unique j t' ≡ c.stage.find_unique j t
  unfolding place_stages
  place_stages-keeps i [] t t' j e n = ground arith
  place_stages-keeps i (id ∷ ids) t t' j e n =
      elim (Option-cases (update_scoped (stages c) env id (placed i) t)) [
        | inl missed ↦ ground arith
        | inr ((g, u), done) ↦
            let (x, _, _, _, others, _) =
              update_scoped-some (stages c) env id (placed i) t u g (placed-key i) done in
            let rest = place_stages-keeps (i + 1) ids u t' j (ground arith) (ground arith) in
            ground (arith, others j, eq_iff id j)
      ]

  -- The stage at an index of the list gets the index as its position.
  place_stages-places :
      (i : ℕ) (ids : List String) (t t' : c.stage.State) (k : ℕ) (id : String)
      → place_stages c env i ids t ≡ some t'
      → Unique ids
      → get_elem? ids k ≡ some id
      → (g : PipelineStage) × (c.stage.find_unique id t ≡ some g)
        × (c.stage.find_unique id t' ≡ some (placed (i + k) g))
  unfolding place_stages
  place_stages-places i [] t t' k id e u h = cc
  place_stages-places i (id' ∷ ids) t t' zero id e u h =
      elim (Option-cases (update_scoped (stages c) env id' (placed i) t)) [
        | inl missed ↦ ground arith
        | inr ((g, v), done) ↦
            let (x, at, is_x, stored, _, _) =
              update_scoped-some (stages c) env id' (placed i) t v g (placed-key i) done in
            let kept = place_stages-keeps (i + 1) ids v t' id' (ground arith) u.0 in
            let same : id' ≡ id = ground arith in (x, ground arith, ground arith)
      ]
  place_stages-places i (id' ∷ ids) t t' (suc k) id e u h =
      elim (Option-cases (update_scoped (stages c) env id' (placed i) t)) [
        | inl missed ↦ ground arith
        | inr ((g, v), done) ↦
            let (x, _, _, _, others, _) =
              update_scoped-some (stages c) env id' (placed i) t v g (placed-key i) done in
            let (y, at, there) = place_stages-places (i + 1) ids v t' k id (ground arith) u.1 h in
            let apart : id' ≢ id = λ same. ground (arith, same, includes_of_get_elem? ids k id h) in
            (y, ground (arith, others id apart), ground arith)
      ]

  -- A reordering that succeeds gives each stage of the list, which are different stages of the
  -- pipeline, its index in the list as its position and changes nothing else of it; stages that are
  -- not in the list and all pipelines are kept as they were.
  pub reorder_stages_lem :
      (pipeline_id : String) (ids : List String) (s s' : PipelineDb c) (p : Option Pipeline)
      → Unique ids
      → reorder_stages c env pipeline_id ids s ≡ (ok p, s')
      → ((k : ℕ) (id : String)
          → get_elem? ids k ≡ some id
          → (g : PipelineStage) × (c.stage.find_unique id s.stages ≡ some g)
            × (c.stage.find_unique id s'.stages ≡ some (placed k g)))
        × ((j : String)
            → includes ids j ≡ false
            → c.stage.find_unique j s'.stages ≡ c.stage.find_unique j s.stages)
        × (s'.pipelines ≡ s.pipelines)
        × (every
              (λ id. includes (map (λ g. g.id) (find_stages_by_pipeline_id c env pipeline_id s)) id)
              ids
            ≡ true)
  unfolding reorder_stages
  reorder_stages_lem pipeline_id ids s s' p u e =
      let run : place_stages c env 0 ids s.stages ≡ some s'.stages = ground arith in
      (
        λ k id h. from_zero k (place_stages-places 0 ids s.stages s'.stages k id run u h),
        λ j n. place_stages-keeps 0 ids s.stages s'.stages j run n,
        ground arith,
        ground arith,
      )
    where
      from_zero :
          (k : ℕ) {id : String}
          → ((g : PipelineStage) × (c.stage.find_unique id s.stages ≡ some g)
              × (c.stage.find_unique id s'.stages ≡ some (placed (0 + k) g)))
          → (g : PipelineStage) × (c.stage.find_unique id s.stages ≡ some g)
            × (c.stage.find_unique id s'.stages ≡ some (placed k g))
      from_zero k (g, at, there) = (g, at, ground arith)
