-- ===== src/Pipelines/Service/Default.antt =====
-- The default flag of pipelines.service.ts: what clearing it leaves.
pub mod Kept
use crm_with_blockchain_rag.Base.{
  Bool-cases, Option-cases, String, arith, eq_iff, false, inl, inr, none, some, sym, true, ◌===◌,
  ◌∙◌, ◌≡◌, ◌≢◌,
}
use crm_with_blockchain_rag.Prisma.{===_refl}
use crm_with_blockchain_rag.Tenancy.{Operation, all_operations, current_tenant}
use crm_with_blockchain_rag.Tenancy.Queries.{Env, tenant_filter, passes}
use crm_with_blockchain_rag.Tenancy.Scoped.{
  find_scoped, update_scoped, update_scoped-some, find_scoped_row, find_scoped-none, delete_scoped,
  delete_scoped-some,
}
use crm_with_blockchain_rag.Pipelines.Types.{Pipeline, PipelineClient, pipelines, PipelineDb}
use crm_with_blockchain_rag.Pipelines.Service.{
  undefault, renamed, UpdatePipelineDto, pipeline_row, find_default, clear_default_flag,
  create_rows, create_pipeline, write_pipeline, update_pipeline, delete_pipeline, create_stages,
  default_stages,
}

module _ (c : PipelineClient) where
  -- The default pipelines of a tenant are one at most.
  abbrev pub OneDefault : String → c.pipeline.State → Type 0
  OneDefault t s =
      (j k : String) (p q : Pipeline)
      → c.pipeline.find_unique j s ≡ some p
      → c.pipeline.find_unique k s ≡ some q
      → p.tenant_id ≡ t
      → q.tenant_id ≡ t
      → p.is_default ≡ true
      → q.is_default ≡ true
      → j ≡ k

  abbrev pub NoDefault : String → c.pipeline.State → Type 0
  NoDefault t s =
      (j : String) (p : Pipeline)
      → c.pipeline.find_unique j s ≡ some p
      → p.tenant_id ≡ t
      → p.is_default ≡ false

  module _ (env : Env) (t : String) (inside : current_tenant env.store ≡ some t) where
    own_rows :
        (owner : String)
        → owner ≡ t
        → passes (tenant_filter env "Pipeline" Operation.find_first none) owner ≡ true
    unfolding all_operations
    own_rows owner h = ground (arith, inside, eq_iff owner t)

    undefault-key : (p : Pipeline) → c.pipeline.key (undefault p) ≡ c.pipeline.key p
    undefault-key p = c.pipeline_keyed (undefault p) ∙ sym (c.pipeline_keyed p)

    rows_own :
        (owner : String)
        → passes (tenant_filter env "Pipeline" Operation.find_first none) owner ≡ true
        → owner ≡ t
    unfolding all_operations
    rows_own owner h = ground (arith, inside, eq_iff owner t)

    -- Once the default that was found is no default, no pipeline of the tenant is.
    cleared :
        (s u : c.pipeline.State) (d d' : Pipeline) (j : String) (p : Pipeline)
        → OneDefault t s
        → find_scoped (pipelines c) env (λ x. x.is_default) s ≡ some d
        → update_scoped (pipelines c) env d.id undefault s ≡ some (d', u)
        → c.pipeline.find_unique j u ≡ some p
        → p.tenant_id ≡ t
        → p.is_default ≡ false
    cleared s u d d' j p one found done at own =
        let (held, is_default, owned) =
          find_scoped_row (pipelines c) env (λ x. x.is_default) s d found in
        let (x, _, is_x, stored, others, _) =
          update_scoped-some (pipelines c) env d.id undefault s u d' undefault-key done in
        elim (Bool-cases (d.id === j)) [
          | inl same ↦
              let here : d.id ≡ j = (eq_iff d.id j).0 same in
              let is_p : d' ≡ p = cc (stored, at, here) in ground arith
          | inr apart ↦
              let n : d.id ≢ j = λ h. ground (arith, eq_iff d.id j) in
              let before : c.pipeline.find_unique j s ≡ some p = sym (others j n) ∙ at in
              elim (Bool-cases p.is_default) [
                | inr plain ↦ plain
                | inl default ↦ absurd (
                    n (
                      sym (
                        one j d.id p d before (rw (c.pipeline_keyed d) at held) own
                          (rows_own d.tenant_id owned) default is_default)))
              ]
        ]

    pub clear_default_flag-NoDefault :
        (s s' : PipelineDb c)
        → OneDefault t s.pipelines
        → clear_default_flag c env s ≡ some s'
        → NoDefault t s'.pipelines
    unfolding clear_default_flag find_default
    clear_default_flag-NoDefault s s' one e j p at own =
        elim (Option-cases (find_default c env s)) [
          | inl nothing_found ↦
              find_scoped-none (pipelines c) env (λ x. x.is_default) s.pipelines j p
                (unfold find_default in nothing_found) (ground arith) (own_rows p.tenant_id own)
          | inr (d, found) ↦
              elim (Option-cases (update_scoped (pipelines c) env d.id undefault s.pipelines)) [
                | inl missed ↦ ground arith
                | inr ((d', u), done) ↦
                    cleared s.pipelines u d d' j p one (unfold find_default in found) done
                      (ground arith) own
              ]
        ]

    pub clear_default_flag-OneDefault :
        (s s' : PipelineDb c)
        → OneDefault t s.pipelines
        → clear_default_flag c env s ≡ some s'
        → OneDefault t s'.pipelines
    clear_default_flag-OneDefault s s' one e j k p q pj qk pt qt pd qd =
        let plain = clear_default_flag-NoDefault s s' one e j p pj pt in ground arith
