-- ===== src/Automation/Service.antt =====
-- crm-backend/src/modules/automation/automation.service.ts. Stored conditions and actions are well
-- formed, as the types of the source have them.
pub mod Executions
pub mod Calls
use crm_with_blockchain_rag.Base.{
  Bool, List, Option, Result, String, [], err, every, false, given, given_too, if◌then◌else◌, none,
  not, ok, some, true, ℕ, ◌&&◌, ◌+◌, ◌===◌, ◌∷◌, ◌≡◌,
}
use crm_with_blockchain_rag.Prisma.{Table}
use crm_with_blockchain_rag.Tenancy.Queries.{Env, row_tenant}
use crm_with_blockchain_rag.Tenancy.Scoped.{Scoped, find_scoped, update_scoped, delete_scoped}
use crm_with_blockchain_rag.Automation.Types.{Json, Js, Group, Action, Call}
use crm_with_blockchain_rag.Automation.Conditions.{evaluate_workflow_conditions}
use crm_with_blockchain_rag.Automation.Actions.{Engine, ActionResult, Event, execute}

-- An action as it is stored, with `stopOnFailure`.
pub record StoredAction (N : Type 0) : Type 0 where
  pub action : Action N
  pub stop_on_failure : Bool

pub record Workflow (N : Type 0) : Type 0 where
  pub id : String
  pub tenant_id : String
  pub name : String
  pub is_active : Bool
  pub trigger_type : String
  pub conditions : Option (Group N)
  pub actions : List (StoredAction N)
  pub last_run_at : Option ℕ
  pub run_count : ℕ
  pub error_count : ℕ

pub data ExecutionStatus : Type 0 where
  running skipped succeeded failed : ExecutionStatus

pub record WorkflowExecution : Type 0 where
  pub id : String
  pub workflow_id : String
  pub tenant_id : String
  pub status : ExecutionStatus
  pub action_results : List ActionResult
  pub completed_at : Option ℕ

-- `AutomationTriggerPayload`, what is read of it.
pub record Payload (N : Type 0) : Type 0 where
  pub tenant_id : String
  pub event : String
  pub event_data : Json N

pub record WorkflowClient : Type 1 where
  pub engine : Engine
  pub workflow : Table (Workflow engine.js.Num)
  pub execution : Table WorkflowExecution
  pub workflow_keyed : (w : Workflow engine.js.Num) → workflow.key w ≡ w.id
  pub execution_keyed : (x : WorkflowExecution) → execution.key x ≡ x.id

abbrev pub workflows : (c : WorkflowClient) → Scoped (Workflow c.engine.js.Num)
workflows c = record { table = c.workflow; tenant = λ w. w.tenant_id; model = "Workflow" }

pub record WorkflowDb (c : WorkflowClient) : Type 0 where
  pub workflows : c.workflow.State
  pub executions : c.execution.State
  pub calls : List (Call c.engine.js.Num)

pub data WorkflowError : Type 0 where
  not_found record_missing constraint_violation : WorkflowError

-- The columns that `update` sets.
pub record UpdateWorkflowDto (N : Type 0) : Type 0 where
  pub name : Option String
  pub conditions : Option (Group N)
  pub actions : Option (List (StoredAction N))

-- The parameter of `create`.
pub record NewWorkflow (N : Type 0) : Type 0 where
  pub tenant_id : String
  pub name : String
  pub trigger_type : String
  pub conditions : Group N
  pub actions : List (StoredAction N)

abbrev pub workflow_row : {N : Type 0} → Env → NewWorkflow N → String → Workflow N
workflow_row env fresh id = record {
  id = id;
  tenant_id = row_tenant env "Workflow" fresh.tenant_id;
  name = fresh.name;
  is_active = false;
  trigger_type = fresh.trigger_type;
  conditions = some fresh.conditions;
  actions = fresh.actions;
  last_run_at = none;
  run_count = 0;
  error_count = 0;
}

abbrev pub rewritten : {N : Type 0} → UpdateWorkflowDto N → Workflow N → Workflow N
rewritten dto w = record w {
  name = given dto.name w.name;
  conditions = given_too dto.conditions w.conditions;
  actions = given dto.actions w.actions;
}

abbrev pub counted : {N : Type 0} → ℕ → Workflow N → Workflow N
counted now w = record w { run_count = w.run_count + 1; last_run_at = some now }

abbrev pub error_counted : {N : Type 0} → Workflow N → Workflow N
error_counted w = record w { error_count = w.error_count + 1 }

-- The columns that the end of an execution sets.
abbrev pub finished :
    ℕ → ExecutionStatus → List ActionResult → WorkflowExecution → WorkflowExecution
finished now st rs x = record x { status = st; action_results = rs; completed_at = some now }

abbrev pub ended : ℕ → ExecutionStatus → WorkflowExecution → WorkflowExecution
ended now st x = record x { status = st; completed_at = some now }

abbrev pub outcome_of : List ActionResult → ExecutionStatus
outcome_of rs = if every (λ r. r.success) rs then succeeded else failed

module _ (c : WorkflowClient) where
  abbrev pub WorkflowOutcome : Type 0 → Type 0
  WorkflowOutcome A = Result WorkflowError A × WorkflowDb c

  unfoldable pub find_workflow : Env → String → WorkflowDb c → Option (Workflow c.engine.js.Num)
  find_workflow env id s = find_scoped (workflows c) env (λ w. w.id === id) s.workflows

  unfoldable pub create_workflow :
      Env → NewWorkflow c.engine.js.Num → WorkflowDb c → WorkflowOutcome (Workflow c.engine.js.Num)
  create_workflow env fresh s = elim (c.workflow.create (workflow_row env fresh) s.workflows) [
    | none ↦ (err constraint_violation, s)
    | some (w, t) ↦ (ok w, record s { workflows = t })
  ]

  -- An update of a workflow that was found.
  unfoldable pub change_workflow :
      Env
      → String
      → (Workflow c.engine.js.Num → Workflow c.engine.js.Num → Workflow c.engine.js.Num)
      → WorkflowDb c
      → WorkflowOutcome (Workflow c.engine.js.Num)
  change_workflow env id f s = elim (find_workflow env id s) [
    | none ↦ (err not_found, s)
    | some old ↦ elim (update_scoped (workflows c) env id (f old) s.workflows) [
      | none ↦ (err record_missing, s)
      | some (w, t) ↦ (ok w, record s { workflows = t })
    ]
  ]

  unfoldable pub update_workflow :
      Env
      → String
      → UpdateWorkflowDto c.engine.js.Num
      → WorkflowDb c
      → WorkflowOutcome (Workflow c.engine.js.Num)
  update_workflow env id dto s = change_workflow env id (λ _ w. rewritten dto w) s

  unfoldable pub toggle_active :
      Env → String → WorkflowDb c → WorkflowOutcome (Workflow c.engine.js.Num)
  toggle_active env id s =
      change_workflow env id (λ old w. record w { is_active = not old.is_active }) s

  unfoldable pub delete_workflow : Env → String → WorkflowDb c → WorkflowOutcome (Unit {0})
  delete_workflow env id s = elim (find_workflow env id s) [
    | none ↦ (err not_found, s)
    | some old ↦ elim (delete_scoped (workflows c) env id s.workflows) [
      | none ↦ (err record_missing, s)
      | some t ↦ (ok tt, record s { workflows = t })
    ]
  ]

  -- The actions in their order, up to one that fails and stops the others.
  unfoldable pub run_actions :
      ℕ
      → List (StoredAction c.engine.js.Num)
      → Event c.engine
      → String
      → List (Call c.engine.js.Num)
      → List ActionResult × List (Call c.engine.js.Num)
  run_actions now [] event_data t calls = ([], calls)
  run_actions now (a ∷ rest) event_data t calls =
      let (r, calls') = execute c.engine now a.action event_data t calls in
      let (rs, calls'') = run_actions now rest event_data t calls' in
      if not r.success && a.stop_on_failure then (r ∷ [], calls') else (r ∷ rs, calls'')

  -- An update of an execution, and of a workflow; none where the client rejects it.
  unfoldable pub set_execution :
      String → (WorkflowExecution → WorkflowExecution) → WorkflowDb c → Option (WorkflowDb c)
  set_execution id f s = elim (c.execution.update id f s.executions) [
    | none ↦ none
    | some (x, t) ↦ some (record s { executions = t })
  ]

  unfoldable pub set_workflow :
      String
      → (Workflow c.engine.js.Num → Workflow c.engine.js.Num)
      → WorkflowDb c
      → Option (WorkflowDb c)
  set_workflow id f s = elim (c.workflow.update id f s.workflows) [
    | none ↦ none
    | some (w, t) ↦ some (record s { workflows = t })
  ]

  -- The body of `try`: whether it comes to its end, and the state there or where it throws.
  unfoldable pub attempt :
      ℕ
      → Payload c.engine.js.Num
      → Workflow c.engine.js.Num
      → String
      → WorkflowDb c
      → Bool × WorkflowDb c
  unfolding run_actions
  attempt now payload w id s =
      if evaluate_workflow_conditions c.engine.js w.conditions payload.event_data
      then (let (rs, calls) =
            run_actions now w.actions payload.event_data payload.tenant_id s.calls in
          let s₁ : WorkflowDb c = record s { calls = calls } in
          elim (set_execution id (finished now (outcome_of rs) rs) s₁) [
            | none ↦ (false, s₁)
            | some s₂ ↦ elim (set_workflow w.id (counted now) s₂) [
              | none ↦ (false, s₂)
              | some s₃ ↦ (true, s₃)
            ]
          ])
      else elim (set_execution id (ended now skipped) s) [
        | none ↦ (false, s)
        | some s₁ ↦ (true, s₁)
      ]

  -- `catch`
  unfoldable pub record_failure :
      ℕ → Workflow c.engine.js.Num → String → WorkflowDb c → WorkflowOutcome (Unit {0})
  record_failure now w id s = elim (set_execution id (ended now failed) s) [
    | none ↦ (err record_missing, s)
    | some s₁ ↦ elim (set_workflow w.id error_counted s₁) [
      | none ↦ (err record_missing, s₁)
      | some s₂ ↦ (ok tt, s₂)
    ]
  ]

  -- The execution as it is created, outside of any tenant scope.
  abbrev pub new_execution : Payload c.engine.js.Num → String → String → WorkflowExecution
  new_execution payload workflow_id id = record {
    id = id;
    workflow_id = workflow_id;
    tenant_id = payload.tenant_id;
    status = running;
    action_results = [];
    completed_at = none;
  }

  -- One round of the loop over the workflows.
  unfoldable pub run_workflow :
      ℕ
      → Payload c.engine.js.Num
      → Workflow c.engine.js.Num
      → WorkflowDb c
      → WorkflowOutcome (Unit {0})
  run_workflow now payload w s =
      elim (c.execution.create (new_execution payload w.id) s.executions) [
        | none ↦ (err constraint_violation, s)
        | some (x, t) ↦
            let (done, s₁) = attempt now payload w x.id (record s { executions = t }) in
            if done then (ok tt, s₁) else record_failure now w x.id s₁
      ]

  unfoldable pub run_workflows :
      ℕ
      → Payload c.engine.js.Num
      → List (Workflow c.engine.js.Num)
      → WorkflowDb c
      → WorkflowOutcome (Unit {0})
  run_workflows now payload [] s = (ok tt, s)
  run_workflows now payload (w ∷ ws) s =
      let (r, s₁) = run_workflow now payload w s in
      let rest = run_workflows now payload ws s₁ in elim r [ err e ↦ (err e, s₁) | ok _ ↦ rest ]

  unfoldable pub process_event :
      ℕ → Payload c.engine.js.Num → WorkflowDb c → WorkflowOutcome (Unit {0})
  process_event now payload s =
      run_workflows now payload
        (c.workflow.find_many
          (λ w.
            w.tenant_id === payload.tenant_id && w.is_active && w.trigger_type === payload.event)
          s.workflows)
        s
