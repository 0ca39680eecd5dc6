-- ===== src/Automation/Service/Calls.antt =====
-- The calls that the workflows of an event make.
use crm_with_blockchain_rag.Base.{
  All, Bool-cases, List, Option-cases, Result-cases, String, [], arith, inl, inr, not, ℕ, ◌&&◌, ◌∷◌,
  ◌≡◌,
}
use crm_with_blockchain_rag.Automation.Types.{Call}
use crm_with_blockchain_rag.Automation.Conditions.{evaluate_workflow_conditions}
use crm_with_blockchain_rag.Automation.Actions.{Event, execute}
use crm_with_blockchain_rag.Automation.Actions.Whitelist.{IsAllowed, execute-IsAllowed}
use crm_with_blockchain_rag.Automation.Service.{
  StoredAction, Workflow, Payload, WorkflowClient, WorkflowDb, run_actions, set_execution,
  set_workflow, attempt, record_failure, new_execution, run_workflow, run_workflows, process_event,
}

module _ (c : WorkflowClient) where
  abbrev AllAllowed : String → List (Call c.engine.js.Num) → Type 0
  AllAllowed t calls = All (λ x. IsAllowed t x) calls

  execute-AllAllowed :
      (now : ℕ) (a : StoredAction c.engine.js.Num) (event_data : Event c.engine) (t : String)
      (calls : List (Call c.engine.js.Num))
      → AllAllowed t calls
      → AllAllowed t (execute c.engine now a.action event_data t calls).1
  execute-AllAllowed now a event_data t calls h =
      elim (execute-IsAllowed c.engine now a.action event_data t calls) [
        | inl kept ↦ rw kept h
        | inr (x, added, _, allowed) ↦ rw added (allowed, h)
      ]

  run_actions-AllAllowed :
      (now : ℕ) (actions : List (StoredAction c.engine.js.Num)) (event_data : Event c.engine)
      (t : String) (calls : List (Call c.engine.js.Num))
      → AllAllowed t calls
      → AllAllowed t (run_actions c now actions event_data t calls).1
  unfolding run_actions
  run_actions-AllAllowed now [] event_data t calls h = h
  run_actions-AllAllowed now (a ∷ rest) event_data t calls h =
      let (r, calls') = execute c.engine now a.action event_data t calls in
      let first = execute-AllAllowed now a event_data t calls h in
      elim (Bool-cases (not r.success && a.stop_on_failure)) [
        | inl stops ↦ rw stops first
        | inr goes_on ↦ rw goes_on (run_actions-AllAllowed now rest event_data t calls' first)
      ]

  -- The updates of executions and workflows make no calls.
  attempt-AllAllowed :
      (now : ℕ) (payload : Payload c.engine.js.Num) (w : Workflow c.engine.js.Num) (id : String)
      (s : WorkflowDb c)
      → AllAllowed payload.tenant_id s.calls
      → AllAllowed payload.tenant_id (attempt c now payload w id s).1.calls
  unfolding attempt set_execution set_workflow
  attempt-AllAllowed now payload w id s h =
      elim (Bool-cases (evaluate_workflow_conditions c.engine.js w.conditions payload.event_data)) [
        | inr skips ↦
            let same : (attempt c now payload w id s).1.calls ≡ s.calls = ground arith in rw same h
        | inl passes ↦
            let after = run_actions c now w.actions payload.event_data payload.tenant_id s.calls in
            let same : (attempt c now payload w id s).1.calls ≡ after.1 = ground arith in
            rw same
              (run_actions-AllAllowed now w.actions payload.event_data payload.tenant_id s.calls h)
      ]

  run_workflow-AllAllowed :
      (now : ℕ) (payload : Payload c.engine.js.Num) (w : Workflow c.engine.js.Num)
      (s : WorkflowDb c)
      → AllAllowed payload.tenant_id s.calls
      → AllAllowed payload.tenant_id (run_workflow c now payload w s).1.calls
  unfolding run_workflow record_failure set_execution set_workflow
  run_workflow-AllAllowed now payload w s h =
      elim (Option-cases (c.execution.create (new_execution c payload w.id) s.executions)) [
        | inl refused ↦
            let same : (run_workflow c now payload w s).1.calls ≡ s.calls = ground arith in
            rw same h
        | inr ((x, t), made) ↦
            let s₀ : WorkflowDb c = record s { executions = t } in
            let same : (run_workflow c now payload w s).1.calls
                ≡ (attempt c now payload w x.id s₀).1.calls =
              ground arith in
            rw same (attempt-AllAllowed now payload w x.id s₀ h)
      ]

  run_workflows-AllAllowed :
      (now : ℕ) (payload : Payload c.engine.js.Num) (ws : List (Workflow c.engine.js.Num))
      (s : WorkflowDb c)
      → AllAllowed payload.tenant_id s.calls
      → AllAllowed payload.tenant_id (run_workflows c now payload ws s).1.calls
  unfolding run_workflows
  run_workflows-AllAllowed now payload [] s h = h
  run_workflows-AllAllowed now payload (w ∷ ws) s h =
      let s₁ = (run_workflow c now payload w s).1 in
      let first = run_workflow-AllAllowed now payload w s h in
      elim (Result-cases (run_workflow c now payload w s).0) [
        | inl (u, done) ↦
            rw (done, run_workflows) (run_workflows-AllAllowed now payload ws s₁ first)
        | inr (e, thrown) ↦ rw (thrown, run_workflows) first
      ]

  -- Where all calls made so far are allowed for the tenant of an event, so are all calls after the
  -- processing of the event: every call that a workflow makes is for this tenant, and changes an
  -- entity only of a model in the whitelist of models, and there only a column in the whitelist of
  -- the model, the column `ownerId` or the column `tags`, and never the tenant, the role or a hash of
  -- a secret, whatever the workflows are.
  pub process_event-AllAllowed :
      (now : ℕ) (payload : Payload c.engine.js.Num) (s : WorkflowDb c)
      → AllAllowed payload.tenant_id s.calls
      → AllAllowed payload.tenant_id (process_event c now payload s).1.calls
  unfolding process_event
  process_event-AllAllowed now payload s h = run_workflows-AllAllowed now payload _ s h
