-- ===== src/Tests/Automation.antt =====
-- crm-backend/src/modules/automation at concrete inputs.
use crm_with_blockchain_rag.Base.{
  All, String, [], false, leb, length, ltb, none, not, refl, some, true, ℕ, ◌==◌, ◌↔◌, ◌∷◌, ◌≡◌,
}
use crm_with_blockchain_rag.Prisma.Memory.Instance.{memory}
use crm_with_blockchain_rag.Automation.Types.{
  Json, undefined, text, number, object, no_members, member, Js, eq, neq, is_empty, is_not_empty,
  conjunction, disjunction, Group, group, single, nested, no_conditions, condition, send_sms,
  update_field, assign_owner, Action,
}
use crm_with_blockchain_rag.Automation.Conditions.{
  split_dots, step_into, walk, resolve_field, compare_values, evaluate_condition, evaluate,
  evaluate_workflow_conditions,
}
use crm_with_blockchain_rag.Automation.Conditions.Holding.{Holds, evaluate_iff}
use crm_with_blockchain_rag.Automation.Conditions.Negation.{negate, evaluate-negate}
use crm_with_blockchain_rag.Automation.Actions.{
  Engine, execute, call_of, execute_update_field, execute_assign_owner, fields_of,
}
use crm_with_blockchain_rag.Automation.Actions.Whitelist.{IsAllowed}
use crm_with_blockchain_rag.Automation.Service.{
  StoredAction, Workflow, Payload, WorkflowClient, WorkflowDb, process_event, run_workflows,
  run_workflow, attempt, set_execution, set_workflow, run_actions,
}
use crm_with_blockchain_rag.Automation.Service.Executions.{NoneStarted, process_event-NoneStarted}
use crm_with_blockchain_rag.Automation.Service.Calls.{process_event-AllAllowed}

abbrev number_in : Json ℕ → ℕ
number_in (number n) = n
number_in _ = 0

abbrev text_in : Json ℕ → String
text_in (text s) = s
text_in _ = ""

abbrev js : Js
js = record {
  Num = ℕ;
  less = ltb;
  at_most = leb;
  same = λ m n. m == n;
  falsy = λ n. n == 0;
  number_of = number_in;
  text_of = text_in;
  lower = λ s. s;
  property = λ v k. undefined;
}

abbrev engine : Engine
engine = record { js = js; handlebars = λ t d. some t; takes = λ calls c. true }

-- A lead as it stands in an event: its own id is `id`.
abbrev lead : Json ℕ
lead =
    object (
      member "id" (text "l1")
        (member "status" (text "NEW") (member "score" (number 80) no_members)))

abbrev fresh : Group ℕ
fresh = group conjunction (
    condition (single "status" eq (text "NEW")) (
      condition
        (nested (
          group disjunction (
            condition (single "email" is_not_empty undefined)
              (condition (single "id" is_not_empty undefined) no_conditions))))
        no_conditions))

abbrev not_fresh : Group ℕ
not_fresh = group disjunction (
    condition (single "status" neq (text "NEW")) (
      condition
        (nested (
          group conjunction (
            condition (single "email" is_empty undefined)
              (condition (single "id" is_empty undefined) no_conditions))))
        no_conditions))

evaluate_fresh : evaluate js fresh lead ≡ true
unfolding evaluate evaluate_condition compare_values resolve_field walk step_into split_dots
evaluate_fresh = refl

evaluate_iff_example : (evaluate js fresh lead ≡ true) ↔ Holds js lead fresh
evaluate_iff_example = evaluate_iff js lead fresh

evaluate-negate_example : evaluate js not_fresh lead ≡ not (evaluate js fresh lead)
unfolding negate
evaluate-negate_example = evaluate-negate js lead fresh not_fresh refl

abbrev tables : WorkflowClient
tables = record {
  engine = engine;
  workflow = memory (λ w. w.id);
  execution = memory (λ x. x.id);
  workflow_keyed = λ w. refl;
  execution_keyed = λ x. refl;
}

abbrev stored : Action ℕ → StoredAction ℕ
stored a = record { action = a; stop_on_failure = false }

abbrev welcome : Workflow ℕ
welcome = record {
  id = "w1";
  tenant_id = "t1";
  name = "Welcome";
  is_active = true;
  trigger_type = "LEAD_CREATED";
  conditions = some fresh;
  actions =
      stored (send_sms "+1" "Hello")
      ∷ stored (assign_owner "lead" "u1")
      ∷ stored (update_field "lead" (some "l1") "status" (text "CONTACTED"))
      ∷ [];
  last_run_at = none;
  run_count = 0;
  error_count = 0;
}

abbrev start : WorkflowDb tables
start = record {
  workflows = record { rows = welcome ∷ []; supply = [] };
  executions = record { rows = []; supply = "x1" ∷ [] };
  calls = [];
}

abbrev created : Payload ℕ
created = record { tenant_id = "t1"; event = "LEAD_CREATED"; event_data = lead }

abbrev after : WorkflowDb tables
after = (process_event tables 7 created start).1

-- Two of the three actions make a call.
welcome_calls : length after.calls ≡ 2
unfolding process_event run_workflows run_workflow attempt run_actions set_execution set_workflow
    evaluate_workflow_conditions evaluate evaluate_condition compare_values resolve_field walk
    step_into split_dots execute call_of execute_update_field execute_assign_owner fields_of
welcome_calls = refl

process_event-NoneStarted_example : NoneStarted tables start after
process_event-NoneStarted_example = process_event-NoneStarted tables 7 created start

process_event-AllAllowed_example : All (λ x. IsAllowed "t1" x) after.calls
process_event-AllAllowed_example = process_event-AllAllowed tables 7 created start tt
