-- ===== src/Automation/Service/Executions.antt =====
-- How the executions of workflows end.
use crm_with_blockchain_rag.Base.{
  Bool, Bool-cases, List, Option-cases, Result-cases, String, [], arith, eq_iff, false, inl, inr,
  none, refl, some, sym, true, ℕ, ◌===◌, ◌∙◌, ◌∷◌, ◌≡◌, ◌≢◌,
}
use crm_with_blockchain_rag.Prisma.{===_refl, create-finds}
use crm_with_blockchain_rag.Automation.Conditions.{evaluate_workflow_conditions}
use crm_with_blockchain_rag.Automation.Actions.{ActionResult}
use crm_with_blockchain_rag.Automation.Service.{
  Workflow, ExecutionStatus, running, skipped, failed, WorkflowExecution, Payload, WorkflowClient,
  WorkflowDb, counted, error_counted, finished, ended, outcome_of, run_actions, set_execution,
  set_workflow, attempt, record_failure, new_execution, run_workflow, run_workflows, process_event,
}

abbrev pub is_running : ExecutionStatus → Bool
is_running running = true
is_running _ = false

module _ (c : WorkflowClient) where
  -- An execution that runs in the second state ran in the first, as the same row.
  abbrev pub NoneStarted : WorkflowDb c → WorkflowDb c → Type 0
  NoneStarted s s' =
      (j : String) (x : WorkflowExecution)
      → c.execution.find_unique j s'.executions ≡ some x
      → is_running x.status ≡ true
      → c.execution.find_unique j s.executions ≡ some x

  -- At most the execution of the key changed, which is there and has ended.
  record Closed (id : String) (u v : c.execution.State) : Type 0 where
    others : (j : String) → id ≢ j → c.execution.find_unique j v ≡ c.execution.find_unique j u
    ended :
        (x : WorkflowExecution)
        → c.execution.find_unique id v ≡ some x
        → is_running x.status ≡ false
    there : c.execution.find_unique id v ≢ none

  Closed-moved : (id : String) (u v w : c.execution.State) → v ≡ w → Closed id u v → Closed id u w
  Closed-moved id u v w same closed = rw same at closed

  -- An execution that is there can be ended.
  set_execution-closes :
      (id : String) (f : WorkflowExecution → WorkflowExecution) (s : WorkflowDb c)
      → ((x : WorkflowExecution) → (f x).id ≡ x.id)
      → ((x : WorkflowExecution) → is_running (f x).status ≡ false)
      → c.execution.find_unique id s.executions ≢ none
      → (s' : WorkflowDb c) × (set_execution c id f s ≡ some s')
        × Closed id s.executions s'.executions
  unfolding set_execution
  set_execution-closes id f s same_id ends has =
      elim (Option-cases (c.execution.update id f s.executions)) [
        | inl missed ↦ absurd (has (c.execution.update_none id f s.executions missed))
        | inr ((y, t), done) ↦
            let keys = λ (x : WorkflowExecution).
              c.execution_keyed (f x) ∙ same_id x ∙ sym (c.execution_keyed x) in
            let (x, at, is_y, after) = c.execution.update_some id f s.executions t y keys done in
            (
              record s { executions = t },
              ground arith,
              record {
                others = λ j n. ground (arith, after j, eq_iff id j);
                ended = λ z held. ground (arith, after id, ===_refl id, ends x);
                there = λ gone. ground (arith, after id, ===_refl id);
              },
            )
      ]

  set_workflow-executions :
      (k : String) (f : Workflow c.engine.js.Num → Workflow c.engine.js.Num) (s s' : WorkflowDb c)
      → set_workflow c k f s ≡ some s'
      → s'.executions ≡ s.executions
  unfolding set_workflow
  set_workflow-executions k f s s' e = ground arith

  outcome_of-ends : (rs : List ActionResult) → is_running (outcome_of rs) ≡ false
  outcome_of-ends rs = ground arith

  -- The body of `try` ends the execution, also where it throws.
  attempt-closes :
      (now : ℕ) (payload : Payload c.engine.js.Num) (w : Workflow c.engine.js.Num) (id : String)
      (s : WorkflowDb c)
      → c.execution.find_unique id s.executions ≢ none
      → Closed id s.executions (attempt c now payload w id s).1.executions
  unfolding attempt
  attempt-closes now payload w id s has =
      elim (Bool-cases (evaluate_workflow_conditions c.engine.js w.conditions payload.event_data)) [
        | inr skips ↦
            let (s₁, done, closed) =
              set_execution-closes id (ended now skipped) s (λ x. refl) (λ x. refl) has in
            rw (skips, done) closed
        | inl passes ↦
            let (rs, calls) =
              run_actions c now w.actions payload.event_data payload.tenant_id s.calls in
            let s₁ : WorkflowDb c = record s { calls = calls } in
            let (s₂, done, closed) =
              set_execution-closes id (finished now (outcome_of rs) rs) s₁ (λ x. refl)
                (λ x. outcome_of-ends rs) has in
            elim (Option-cases (set_workflow c w.id (counted now) s₂)) [
              | inl missed ↦ rw (passes, done, missed) closed
              | inr (s₃, counts) ↦
                  rw (passes, done, counts, set_workflow-executions w.id (counted now) s₂ s₃ counts)
                    closed
            ]
      ]

  record_failure-closes :
      (now : ℕ) (w : Workflow c.engine.js.Num) (id : String) (s : WorkflowDb c)
      → c.execution.find_unique id s.executions ≢ none
      → Closed id s.executions (record_failure c now w id s).1.executions
  unfolding record_failure
  record_failure-closes now w id s has =
      let (s₁, done, closed) =
        set_execution-closes id (ended now failed) s (λ x. refl) (λ x. refl) has in
      elim (Option-cases (set_workflow c w.id error_counted s₁)) [
        | inl missed ↦ Closed-moved id s.executions s₁.executions _ (ground arith) closed
        | inr (s₂, counts) ↦
            let same = set_workflow-executions w.id error_counted s₁ s₂ counts in
            Closed-moved id s.executions s₁.executions _ (ground arith) closed
      ]

  Closed-trans :
      (id : String) (u v w : c.execution.State) → Closed id u v → Closed id v w → Closed id u w
  Closed-trans id u v w first second = record {
    others = λ j n. second.others j n ∙ first.others j n;
    ended = second.ended;
    there = second.there;
  }

  -- The round of a workflow closes the execution that it creates.
  run_workflow-closes :
      (now : ℕ) (payload : Payload c.engine.js.Num) (w : Workflow c.engine.js.Num)
      (s : WorkflowDb c) (y : WorkflowExecution) (t : c.execution.State)
      → c.execution.create (new_execution c payload w.id) s.executions ≡ some (y, t)
      → Closed y.id t (run_workflow c now payload w s).1.executions
  unfolding run_workflow
  run_workflow-closes now payload w s y t made =
      let row = new_execution c payload w.id in
      let keys = λ (i : String). c.execution_keyed (row i) in
      let held = create-finds c.execution row s.executions t y keys made in
      let key_y = c.execution_keyed y in
      let s₀ : WorkflowDb c = record s { executions = t } in
      let closed = attempt-closes now payload w y.id s₀ (λ gone. cc (held, key_y, gone)) in
      let s₁ = (attempt c now payload w y.id s₀).1 in
      elim (Bool-cases (attempt c now payload w y.id s₀).0) [
        | inl done ↦ Closed-moved y.id t s₁.executions _ (ground arith) closed
        | inr thrown ↦
            Closed-moved y.id t (record_failure c now w y.id s₁).1.executions _ (ground arith) (
              Closed-trans y.id t s₁.executions (record_failure c now w y.id s₁).1.executions closed
                (record_failure-closes now w y.id s₁ closed.there))
      ]

  run_workflow-NoneStarted :
      (now : ℕ) (payload : Payload c.engine.js.Num) (w : Workflow c.engine.js.Num)
      (s : WorkflowDb c)
      → NoneStarted s (run_workflow c now payload w s).1
  unfolding run_workflow
  run_workflow-NoneStarted now payload w s j x held runs =
      let row = new_execution c payload w.id in
      let keys = λ (i : String). c.execution_keyed (row i) in
      elim (Option-cases (c.execution.create row s.executions)) [
        | inl refused ↦ ground arith
        | inr ((y, t), made) ↦
            let closed = run_workflow-closes now payload w s y t made in
            let (_, _, after) = c.execution.create_lem row s.executions t y keys made in
            let key_y = c.execution_keyed y in
            elim (Bool-cases (y.id === j)) [
              | inl here ↦
                  let over = closed.ended x (rw (← (eq_iff y.id j).0 here) at held) in ground arith
              | inr apart ↦
                  let n : y.id ≢ j = λ same. ground (arith, eq_iff y.id j) in
                  sym (after j ∙ rw (key_y, apart) refl) ∙ sym (closed.others j n) ∙ held
            ]
      ]

  run_workflows-NoneStarted :
      (now : ℕ) (payload : Payload c.engine.js.Num) (ws : List (Workflow c.engine.js.Num))
      (s : WorkflowDb c)
      → NoneStarted s (run_workflows c now payload ws s).1
  unfolding run_workflows
  run_workflows-NoneStarted now payload [] s j x held runs = held
  run_workflows-NoneStarted now payload (w ∷ ws) s j x held runs =
      let s₁ = (run_workflow c now payload w s).1 in
      elim (Result-cases (run_workflow c now payload w s).0) [
        | inl (u, done) ↦
            run_workflow-NoneStarted now payload w s j x
              (run_workflows-NoneStarted now payload ws s₁ j x (ground arith) runs) runs
        | inr (e, thrown) ↦ run_workflow-NoneStarted now payload w s j x (ground arith) runs
      ]

  -- When the processing of an event is over, whether it succeeds or throws, every execution that is
  -- running was there and running before, as the same row: each execution that the event created has
  -- ended, as skipped, successful or failed.
  pub process_event-NoneStarted :
      (now : ℕ) (payload : Payload c.engine.js.Num) (s : WorkflowDb c)
      → NoneStarted s (process_event c now payload s).1
  unfolding process_event
  process_event-NoneStarted now payload s = run_workflows-NoneStarted now payload _ s
