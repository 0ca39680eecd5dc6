-- ===== src/Automation/Types.antt =====
-- Event data, condition trees and actions (crm-backend/src/shared/types/events.types.ts).
use crm_with_blockchain_rag.Base.{Bool, Option, String, ℕ}

-- A value of the language that comes from a JSON document, over the numbers `N`.
mutual
  pub data Json (N : Type 0) : Type 0 where
    undefined null : Json N
    text : String → Json N
    number : N → Json N
    boolean : Bool → Json N
    list : Items N → Json N
    object : Members N → Json N

  pub data Items (N : Type 0) : Type 0 where
    no_items : Items N
    item : Json N → Items N → Items N

  pub data Members (N : Type 0) : Type 0 where
    no_members : Members N
    member : String → Json N → Members N → Members N

-- Numbers of the language and its conversions: `<`, `<=`, `===` and `!n` on numbers, `Number(v)`,
-- `String(v)`, `s.toLowerCase()`, and the properties that a value has besides an object's own.
pub record Js : Type 1 where
  pub Num : Type 0
  pub less : Num → Num → Bool
  pub at_most : Num → Num → Bool
  pub same : Num → Num → Bool
  pub falsy : Num → Bool
  pub number_of : Json Num → Num
  pub text_of : Json Num → String
  pub lower : String → String
  pub property : Json Num → String → Json Num

-- `ConditionOperator`, and what else a stored condition may name.
pub data Operator : Type 0 where
  eq neq gt gte lt lte contains not_contains in_list not_in is_empty is_not_empty : Operator
  changed_to other_operator : Operator

pub data Logic : Type 0 where
  conjunction disjunction : Logic

-- `WorkflowCondition` and `WorkflowConditionGroup`
mutual
  pub data Group (N : Type 0) : Type 0 where
    group : Logic → Conditions N → Group N

  pub data Condition (N : Type 0) : Type 0 where
    single : String → Operator → Json N → Condition N
    nested : Group N → Condition N

  pub data Conditions (N : Type 0) : Type 0 where
    no_conditions : Conditions N
    condition : Condition N → Conditions N → Conditions N

-- `WorkflowAction` without its id: the types with the configuration that the executor reads, and the
-- types that it does not know.
pub data Action (N : Type 0) : Type 0 where
  send_email : (to : String) (template_id subject body : Option String) → Action N
  send_sms : (to message : String) → Action N
  create_task :
      (title : String) (description assign_to : Option String) (due_days : Option ℕ)
      (priority entity_type : Option String)
      → Action N
  update_field :
      (entity_type : String) (entity_id : Option String) (field : String) (value : Json N)
      → Action N
  assign_owner : (entity_type user_id : String) → Action N
  create_notification : (user_id title body type : String) → Action N
  add_tag : (entity_type tag : String) → Action N
  other_action : Action N

-- What an update of an entity sets.
pub data Change (N : Type 0) : Type 0 where
  set_field : String → Json N → Change N
  set_owner : String → Change N
  push_tag : String → Change N

-- A call that an action makes, of a queue or of the client.
pub data Call (N : Type 0) : Type 0 where
  email_job :
      (tenant_id to : String) (template_id subject body : Option String) (event_data : Json N)
      → Call N
  sms_job : (tenant_id to message : String) → Call N
  notification_job :
      (tenant_id user_id title body type : String) (entity_type entity_id : Json N) → Call N
  task_row :
      (tenant_id title : String) (description assignee_id : Option String) (priority : String)
      (due_date : Option ℕ) (entity_type : Option String) (entity_id created_by_id : Json N)
      → Call N
  entity_update :
      (model : String) (entity_id : Json N) (tenant_id : String) (change : Change N) → Call N
