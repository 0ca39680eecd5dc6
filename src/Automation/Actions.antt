-- ===== src/Automation/Actions.antt =====
-- crm-backend/src/modules/automation/engine/action-executor.ts. `Handlebars` is a parameter: the text
-- that it makes of a template, or none where it throws. Whether a queue or the client takes a call,
-- given the calls before it, is a parameter too; a call that is not taken throws.
pub mod Whitelist
use crm_with_blockchain_rag.Base.{
  Bool, List, Option, String, [], false, filled, given, if◌then◌else◌, includes, none, not, some,
  true, truthy, ℕ, ◌&&◌, ◌*◌, ◌+◌, ◌===◌, ◌==◌, ◌∷◌,
}
use crm_with_blockchain_rag.Automation.Types.{
  Json, undefined, null, text, number, boolean, list, object, Js, Action, send_email, send_sms,
  create_task, update_field, assign_owner, create_notification, add_tag, other_action, Change,
  set_field, set_owner, push_tag, Call, email_job, sms_job, notification_job, task_row,
  entity_update,
}
use crm_with_blockchain_rag.Automation.Conditions.{step_into}

abbrev pub allowed_automation_models : List String
allowed_automation_models = "lead" ∷ "contact" ∷ "deal" ∷ "ticket" ∷ "task" ∷ []

-- `ALLOWED_UPDATE_FIELDS`
abbrev pub update_fields : List (String × List String)
update_fields =
    ("lead", "status" ∷ "score" ∷ "notes" ∷ "assigneeId" ∷ "lastContactedAt" ∷ "tags" ∷ [])
    ∷ ("contact", "notes" ∷ "jobTitle" ∷ "phone" ∷ "lastContactedAt" ∷ [])
    ∷ ("deal", "status" ∷ "closingDate" ∷ "lostReason" ∷ "description" ∷ "value" ∷ [])
    ∷ ("ticket", "status" ∷ "priority" ∷ "assigneeId" ∷ [])
    ∷ ("task", "status" ∷ "priority" ∷ "dueDate" ∷ "description" ∷ [])
    ∷ []

unfoldable pub fields_of : List (String × List String) → String → List String
fields_of [] model = []
fields_of ((name, fields) ∷ rest) model = if name === model then fields else fields_of rest model

-- `ALLOWED_UPDATE_FIELDS[modelKey]`
abbrev pub allowed_update_fields : String → List String
allowed_update_fields model = fields_of update_fields model

pub record Engine : Type 1 where
  pub js : Js
  pub handlebars : String → Json js.Num → Option String
  pub takes : List (Call js.Num) → Call js.Num → Bool

-- `ActionResult`, without the id, the type and the message.
pub record ActionResult : Type 0 where
  pub success : Bool

module _ (e : Engine) where
  abbrev pub Event : Type 0
  Event = Json e.js.Num

  -- `renderTemplate`: a template that cannot be rendered stays as it is.
  abbrev pub render_template : String → Event → String
  render_template template event_data = elim (e.handlebars template event_data) [
    | none ↦ template
    | some rendered ↦ rendered
  ]

  abbrev pub render_filled : Option String → Event → Option String
  render_filled template event_data = elim (filled template) [
    | none ↦ none
    | some t ↦ some (render_template t event_data)
  ]

  abbrev pub is_truthy : Event → Bool
  is_truthy undefined = false
  is_truthy null = false
  is_truthy (text s) = truthy s
  is_truthy (number n) = not (e.js.falsy n)
  is_truthy (boolean b) = b
  is_truthy _ = true

  -- `data.entityId`
  abbrev pub entity_id_of : Event → Event
  entity_id_of event_data = step_into e.js event_data "entityId"

  -- `data.actorId || data.userId || undefined`
  abbrev pub creator_of : Event → Event
  creator_of event_data =
      let actor = step_into e.js event_data "actorId" in
      let user = step_into e.js event_data "userId" in
      if is_truthy actor then actor else if is_truthy user then user else undefined

  -- A number of days from now, where it is given and not zero.
  abbrev pub due_date : ℕ → Option ℕ → Option ℕ
  due_date now none = none
  due_date now (some days) = if days == 0 then none else some (now + days * 86_400_000)

  -- The id that the configuration names, or the event's.
  abbrev pub target_of : Option String → Event → Event
  target_of entity_id event_data = elim (filled entity_id) [
    | none ↦ entity_id_of event_data
    | some t ↦ text (render_template t event_data)
  ]

  -- `executeUpdateField`: the call it makes, or none where it is blocked or skipped.
  unfoldable pub execute_update_field :
      String → Option String → String → Event → Event → String → Option (Call e.js.Num)
  execute_update_field entity_type entity_id field value event_data tenant_id =
      let model_key = e.js.lower entity_type in
      let id = target_of entity_id event_data in
      if includes allowed_automation_models model_key
        && includes (allowed_update_fields model_key) field
        && is_truthy id
      then some (entity_update model_key id tenant_id (set_field field value))
      else none

  unfoldable pub execute_assign_owner : String → String → Event → String → Option (Call e.js.Num)
  execute_assign_owner entity_type user_id event_data tenant_id =
      let model_key = e.js.lower entity_type in
      let id = entity_id_of event_data in
      let user = render_template user_id event_data in
      if includes allowed_automation_models model_key && is_truthy id && truthy user
      then some (entity_update model_key id tenant_id (set_owner user))
      else none

  unfoldable pub execute_add_tag : String → String → Event → String → Option (Call e.js.Num)
  execute_add_tag entity_type tag event_data tenant_id =
      let model_key = e.js.lower entity_type in
      let id = entity_id_of event_data in
      if includes allowed_automation_models model_key && is_truthy id
      then some (entity_update model_key id tenant_id (push_tag tag))
      else none

  -- The call that an action makes; an unknown type makes none.
  unfoldable pub call_of : ℕ → Action e.js.Num → Event → String → Option (Call e.js.Num)
  call_of now (send_email to template_id subject body) event_data tenant_id = some (
      email_job tenant_id (render_template to event_data) template_id
        (render_filled subject event_data) (render_filled body event_data) event_data)
  call_of now (send_sms to message) event_data tenant_id =
      some (sms_job tenant_id (render_template to event_data) (render_template message event_data))
  call_of now (create_task title description assign_to due_days priority entity_type) event_data
        tenant_id =
      some (
        task_row tenant_id (render_template title event_data) (render_filled description event_data)
          (render_filled assign_to event_data) (given priority "MEDIUM") (due_date now due_days)
          entity_type (entity_id_of event_data) (creator_of event_data))
  call_of now (update_field entity_type entity_id field value) event_data tenant_id =
      execute_update_field entity_type entity_id field value event_data tenant_id
  call_of now (assign_owner entity_type user_id) event_data tenant_id =
      execute_assign_owner entity_type user_id event_data tenant_id
  call_of now (create_notification user_id title body type) event_data tenant_id = some (
      notification_job tenant_id (render_template user_id event_data)
        (render_template title event_data) (render_template body event_data) type
        (step_into e.js event_data "entityType") (entity_id_of event_data))
  call_of now (add_tag entity_type tag) event_data tenant_id =
      execute_add_tag entity_type tag event_data tenant_id
  call_of now other_action event_data tenant_id = none

  -- The method `execute`, with the calls that were taken, the newest first.
  unfoldable pub execute :
      ℕ
      → Action e.js.Num
      → Event
      → String
      → List (Call e.js.Num)
      → ActionResult × List (Call e.js.Num)
  execute now action event_data tenant_id calls = elim (call_of now action event_data tenant_id) [
    | none ↦ (record { success = true }, calls)
    | some c ↦
        if e.takes calls c
        then (record { success = true }, c ∷ calls)
        else (record { success = false }, calls)
  ]
