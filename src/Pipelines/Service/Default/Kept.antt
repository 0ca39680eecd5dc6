-- ===== src/Pipelines/Service/Default/Kept.antt =====
-- A tenant has at most one default pipeline: the operations of pipelines.service.ts keep it so.
use crm_with_blockchain_rag.Base.{
  Bool, Bool-cases, Option, Option-cases, String, ap, arith, eq_iff, false, given, inl, inr, none,
  refl, some, sym, true, ◌===◌, ◌∙◌, ◌≡◌,
}
use crm_with_blockchain_rag.Tenancy.{current_tenant}
use crm_with_blockchain_rag.Tenancy.Queries.{Env}
use crm_with_blockchain_rag.Tenancy.Scoped.{
  update_scoped, update_scoped-some, delete_scoped, delete_scoped-some,
}
use crm_with_blockchain_rag.Pipelines.Types.{Pipeline, PipelineClient, pipelines, PipelineDb}
use crm_with_blockchain_rag.Pipelines.Service.{
  renamed, UpdatePipelineDto, pipeline_row, clear_default_flag, find_pipeline, create_stages,
  default_stages, create_rows, create_pipeline, write_pipeline, update_pipeline, delete_pipeline,
}
use crm_with_blockchain_rag.Pipelines.Service.Default.{
  OneDefault, NoDefault, clear_default_flag-OneDefault, clear_default_flag-NoDefault,
}

module _ (c : PipelineClient) (env : Env) (t : String)
    (inside : current_tenant env.store ≡ some t) where
  -- One more pipeline keeps the invariant where it is no default, or where there is none.
  added :
      (name : String) (is_default : Bool) (s u : c.pipeline.State) (r : Pipeline)
      → OneDefault c t s
      → (is_default ≡ true → NoDefault c t s)
      → c.pipeline.create (pipeline_row env t name is_default) s ≡ some (r, u)
      → OneDefault c t u
  added name is_default s u r one clear made j k p q pj qk pt qt pd qd =
      let row = pipeline_row env t name is_default in
      let (is_r, _, after) = c.pipeline.create_lem row s u r (λ i. c.pipeline_keyed (row i)) made in
      let flag : r.is_default ≡ is_default = ap (λ x. x.is_default) is_r in
      elim (Bool-cases (c.pipeline.key r === j)) [
        | inl here ↦ elim (Bool-cases (c.pipeline.key r === k)) [
          | inl also ↦
              sym ((eq_iff (c.pipeline.key r) j).0 here) ∙ (eq_iff (c.pipeline.key r) k).0 also
          | inr apart ↦ ground (arith, after j, after k, clear (ground (arith, after j)) k q)
        ]
        | inr away ↦ elim (Bool-cases (c.pipeline.key r === k)) [
          | inl here ↦ ground (arith, after j, after k, clear (ground (arith, after k)) j p)
          | inr apart ↦ one j k p q (ground (arith, after j)) (ground (arith, after k)) pt qt pd qd
        ]
      ]

  create_rows-OneDefault :
      (name : String) (is_default : Bool) (s : PipelineDb c)
      → OneDefault c t s.pipelines
      → (is_default ≡ true → NoDefault c t s.pipelines)
      → OneDefault c t (create_rows c env name is_default t s).1.pipelines
  unfolding create_rows
  create_rows-OneDefault name is_default s one clear j k p q pj qk pt qt pd qd =
      elim (Option-cases (c.pipeline.create (pipeline_row env t name is_default) s.pipelines)) [
        | inl refused ↦ one j k p q (ground arith) (ground arith) pt qt pd qd
        | inr ((r, u), made) ↦
            elim (Option-cases (create_stages c env t r.id default_stages s.stages)) [
              | inl refused ↦ one j k p q (ground arith) (ground arith) pt qt pd qd
              | inr (v, staged) ↦ elim (Bool-cases env.commits) [
                | inr failed ↦ one j k p q (ground arith) (ground arith) pt qt pd qd
                | inl done ↦
                    added name is_default s.pipelines u r one clear made j k p q (ground arith)
                      (ground arith) pt qt pd qd
              ]
            ]
      ]

  -- A pipeline that is the default after a change, and another default, are one.
  no_other :
      (sent : Option Bool) (id k : String) (x q : Pipeline) (s : c.pipeline.State)
      → OneDefault c t s
      → (given sent false ≡ true → NoDefault c t s)
      → c.pipeline.find_unique id s ≡ some x
      → c.pipeline.find_unique k s ≡ some q
      → x.tenant_id ≡ t
      → q.tenant_id ≡ t
      → given sent x.is_default ≡ true
      → q.is_default ≡ true
      → id ≡ k
  no_other none id k x q s one clear at also xt qt xd qd = one id k x q at also xt qt xd qd
  no_other (some true) id k x q s one clear at also xt qt xd qd =
      let plain = clear refl k q also qt in ground arith
  no_other (some false) id k x q s one clear at also xt qt xd qd = ground arith

  -- So does a change of a pipeline.
  changed :
      (id : String) (dto : UpdatePipelineDto) (s u : c.pipeline.State) (r : Pipeline)
      → OneDefault c t s
      → (given dto.is_default false ≡ true → NoDefault c t s)
      → update_scoped (pipelines c) env id (renamed dto) s ≡ some (r, u)
      → OneDefault c t u
  changed id dto s u r one clear done j k p q pj qk pt qt pd qd =
      let keys = λ (x : Pipeline). c.pipeline_keyed (renamed dto x) ∙ sym (c.pipeline_keyed x) in
      let (x, was, is_r, held, others, _) =
        update_scoped-some (pipelines c) env id (renamed dto) s u r keys done in
      let same_tenant : r.tenant_id ≡ x.tenant_id = ap (λ y. y.tenant_id) is_r in
      let flag : r.is_default ≡ given dto.is_default x.is_default = ap (λ y. y.is_default) is_r in
      elim (Bool-cases (id === j)) [
        | inl here ↦ elim (Bool-cases (id === k)) [
          | inl also ↦ sym ((eq_iff id j).0 here) ∙ (eq_iff id k).0 also
          | inr apart ↦
              let kept = sym (others k (λ h. ground (arith, eq_iff id k))) ∙ qk in
              let same : r ≡ p = ground (arith, held, pj, eq_iff id j) in
              sym ((eq_iff id j).0 here)
              ∙ no_other dto.is_default id k x q s one clear was kept (cc (same_tenant, same, pt))
                  qt (cc (flag, same, pd)) qd
        ]
        | inr away ↦ elim (Bool-cases (id === k)) [
          | inl here ↦
              let kept = sym (others j (λ h. ground (arith, eq_iff id j))) ∙ pj in
              let same : r ≡ q = ground (arith, held, qk, eq_iff id k) in
              sym (
                no_other dto.is_default id j x p s one clear was kept (cc (same_tenant, same, qt))
                  pt (cc (flag, same, qd)) pd)
              ∙ (eq_iff id k).0 here
          | inr apart ↦
              one j k p q (sym (others j (λ h. ground (arith, eq_iff id j))) ∙ pj)
                (sym (others k (λ h. ground (arith, eq_iff id k))) ∙ qk) pt qt pd qd
        ]
      ]

  write_pipeline-OneDefault :
      (id : String) (dto : UpdatePipelineDto) (s : PipelineDb c)
      → OneDefault c t s.pipelines
      → (given dto.is_default false ≡ true → NoDefault c t s.pipelines)
      → OneDefault c t (write_pipeline c env id dto s).1.pipelines
  unfolding write_pipeline
  write_pipeline-OneDefault id dto s one clear j k p q pj qk pt qt pd qd =
      elim (Option-cases (update_scoped (pipelines c) env id (renamed dto) s.pipelines)) [
        | inl missed ↦ one j k p q (ground arith) (ground arith) pt qt pd qd
        | inr ((r, u), done) ↦
            changed id dto s.pipelines u r one clear done j k p q (ground arith) (ground arith) pt
              qt pd qd
      ]

  create_pipeline-OneDefault :
      (name : String) (is_default : Bool) (s : PipelineDb c)
      → OneDefault c t s.pipelines
      → OneDefault c t (create_pipeline c env name is_default t s).1.pipelines
  unfolding create_pipeline
  create_pipeline-OneDefault name false s one j k p q pj qk =
      create_rows-OneDefault name false s one (λ h. ground arith) j k p q pj qk
  create_pipeline-OneDefault name true s one j k p q pj qk =
      elim (Option-cases (clear_default_flag c env s)) [
        | inl failed ↦ one j k p q (ground arith) (ground arith)
        | inr (s₁, done) ↦
            create_rows-OneDefault name true s₁
              (clear_default_flag-OneDefault c env t inside s s₁ one done)
              (λ _. clear_default_flag-NoDefault c env t inside s s₁ one done) j k p q
              (ground arith) (ground arith)
      ]

  update_pipeline-OneDefault :
      (id : String) (dto : UpdatePipelineDto) (s : PipelineDb c)
      → OneDefault c t s.pipelines
      → OneDefault c t (update_pipeline c env id dto s).1.pipelines
  unfolding update_pipeline
  update_pipeline-OneDefault id dto s one j k p q pj qk =
      elim (Option-cases (find_pipeline c env id s)) [
        | inl missing ↦ one j k p q (ground arith) (ground arith)
        | inr (r, found) ↦ elim (Bool-cases (given dto.is_default false)) [
          | inr plain ↦
              write_pipeline-OneDefault id dto s one (λ h. ground arith) j k p q (ground arith)
                (ground arith)
          | inl default ↦ elim (Option-cases (clear_default_flag c env s)) [
            | inl failed ↦ one j k p q (ground arith) (ground arith)
            | inr (s₁, done) ↦
                write_pipeline-OneDefault id dto s₁
                  (clear_default_flag-OneDefault c env t inside s s₁ one done)
                  (λ _. clear_default_flag-NoDefault c env t inside s s₁ one done) j k p q
                  (ground arith) (ground arith)
          ]
        ]
      ]

  -- A pipeline that is there after a deletion was there before.
  delete_pipeline-keeps :
      (id : String) (s : PipelineDb c) (j : String) (p : Pipeline)
      → c.pipeline.find_unique j (delete_pipeline c env id s).1.pipelines ≡ some p
      → c.pipeline.find_unique j s.pipelines ≡ some p
  unfolding delete_pipeline
  delete_pipeline-keeps id s j p there =
      elim (Option-cases (delete_scoped (pipelines c) env id s.pipelines)) [
        | inl missed ↦ ground arith
        | inr (u, done) ↦
            let (gone, others) = delete_scoped-some (pipelines c) env id s.pipelines u done in
            elim (Bool-cases (id === j)) [
              | inl here ↦ ground (arith, eq_iff id j)
              | inr away ↦ let kept = others j (λ h. ground (arith, eq_iff id j)) in ground arith
            ]
      ]

  delete_pipeline-OneDefault :
      (id : String) (s : PipelineDb c)
      → OneDefault c t s.pipelines
      → OneDefault c t (delete_pipeline c env id s).1.pipelines
  delete_pipeline-OneDefault id s one j k p q pj qk =
      one j k p q (delete_pipeline-keeps id s j p pj) (delete_pipeline-keeps id s k q qk)

  -- In the context of a tenant with at most one default pipeline, the creation of a pipeline for
  -- the tenant, the change of any pipeline and its deletion all leave the tenant at most one
  -- default pipeline, whether the call succeeds or fails.
  pub OneDefault-kept :
      (name id : String) (is_default : Bool) (dto : UpdatePipelineDto) (s : PipelineDb c)
      → OneDefault c t s.pipelines
      → OneDefault c t (create_pipeline c env name is_default t s).1.pipelines
        × OneDefault c t (update_pipeline c env id dto s).1.pipelines
        × OneDefault c t (delete_pipeline c env id s).1.pipelines
  OneDefault-kept name id is_default dto s one = (
    create_pipeline-OneDefault name is_default s one,
    update_pipeline-OneDefault id dto s one,
    delete_pipeline-OneDefault id s one,
  )
