-- ===== src/Automation/Actions/Whitelist.antt =====
-- What the actions of a workflow can touch.
use crm_with_blockchain_rag.Base.{
  Bool-cases, List, Option-cases, String, [], arith, eq_iff, every, false, includes, inl, inr, none,
  not, refl, some, true, truthy, ℕ, ◌&&◌, ◌∷◌, ◌≡◌, ◌≢◌, ◌⊎◌,
}
use crm_with_blockchain_rag.Automation.Types.{
  undefined, Action, send_email, send_sms, create_task, update_field, assign_owner,
  create_notification, add_tag, other_action, Change, set_field, set_owner, push_tag, Call,
  email_job, sms_job, notification_job, task_row, entity_update,
}
use crm_with_blockchain_rag.Automation.Conditions.{step_into}
use crm_with_blockchain_rag.Automation.Actions.{
  allowed_automation_models, allowed_update_fields, Engine, Event, target_of, render_template,
  entity_id_of, is_truthy, execute_update_field, execute_assign_owner, execute_add_tag, call_of,
  execute, fields_of, update_fields,
}

-- The columns that no workflow may set.
abbrev pub IsOpen : String → Type 0
IsOpen field =
    (field ≢ "tenantId")
    × (field ≢ "role")
    × (field ≢ "passwordHash")
    × (field ≢ "refreshTokenHash")

-- The column that a change writes.
abbrev pub column_of : {N : Type 0} → Change N → String
column_of (set_field field v) = field
column_of (set_owner user) = "ownerId"
column_of (push_tag tag) = "tags"

-- The column is in the whitelist of the model, or it is that of an assigned owner or an added tag; in
-- either case it is none of those that no workflow may set.
abbrev pub IsOpenChange : {N : Type 0} → String → Change N → Type 0
IsOpenChange model change =
    IsOpen (column_of change)
    × ((includes (allowed_update_fields model) (column_of change) ≡ true)
        ⊎ (column_of change ≡ "ownerId")
        ⊎ (column_of change ≡ "tags"))

-- A call for a tenant, and of an entity only of a model in the whitelist, by an open change.
abbrev pub IsAllowed : {N : Type 0} → String → Call N → Type 0
IsAllowed t (email_job tenant_id to template_id subject body event_data) = tenant_id ≡ t
IsAllowed t (sms_job tenant_id to message) = tenant_id ≡ t
IsAllowed t (notification_job tenant_id user_id title body type entity_type entity_id) =
    tenant_id ≡ t
IsAllowed t
      (task_row tenant_id title description assignee_id priority due_date entity_type entity_id
        created_by_id) =
    tenant_id ≡ t
IsAllowed t (entity_update model entity_id tenant_id change) =
    (tenant_id ≡ t) × (includes allowed_automation_models model ≡ true) × IsOpenChange model change

-- A field that is in no list is not allowed on any model.
fields_of-closed :
    (table : List (String × List String)) (model field : String)
    → every (λ entry. not (includes entry.1 field)) table ≡ true
    → includes (fields_of table model) field ≡ false
unfolding fields_of
fields_of-closed [] model field h = refl
fields_of-closed ((name, fields) ∷ rest) model field h =
    ground (arith, fields_of-closed rest model field)

allowed_update_fields-IsOpen :
    (model field : String) → includes (allowed_update_fields model) field ≡ true → IsOpen field
allowed_update_fields-IsOpen model field h = (
  closed "tenantId" refl,
  closed "role" refl,
  closed "passwordHash" refl,
  closed "refreshTokenHash" refl,
)
  where
    closed :
        (name : String)
        → every (λ entry. not (includes entry.1 name)) update_fields ≡ true
        → field ≢ name
    closed name none_has same =
        ground (arith, fields_of-closed update_fields model name none_has, same)

set_owner-IsOpen : IsOpen "ownerId"
set_owner-IsOpen = (
  ground (arith, eq_iff "ownerId" "tenantId"),
  ground (arith, eq_iff "ownerId" "role"),
  ground (arith, eq_iff "ownerId" "passwordHash"),
  ground (arith, eq_iff "ownerId" "refreshTokenHash"),
)

push_tag-IsOpen : IsOpen "tags"
push_tag-IsOpen = (
  ground (arith, eq_iff "tags" "tenantId"),
  ground (arith, eq_iff "tags" "role"),
  ground (arith, eq_iff "tags" "passwordHash"),
  ground (arith, eq_iff "tags" "refreshTokenHash"),
)

module _ (e : Engine) where
  moved : (t : String) (a b : Call e.js.Num) → some a ≡ some b → IsAllowed t a → IsAllowed t b
  moved t a b h allowed = let same : a ≡ b = ground arith in rw same at allowed

  call_of-IsAllowed :
      (now : ℕ) (action : Action e.js.Num) (event_data : Event e) (t : String) (c : Call e.js.Num)
      → call_of e now action event_data t ≡ some c
      → IsAllowed t c
  unfolding call_of execute_update_field execute_assign_owner execute_add_tag
  call_of-IsAllowed now (send_email to template_id subject body) event_data t c h =
      moved t _ c h refl
  call_of-IsAllowed now (send_sms to message) event_data t c h = moved t _ c h refl
  call_of-IsAllowed now (create_task title description assign_to due_days priority entity_type)
        event_data t c h =
      moved t _ c h refl
  call_of-IsAllowed now (update_field entity_type entity_id field value) event_data t c h =
      let model = e.js.lower entity_type in
      elim (Bool-cases (includes allowed_automation_models model)) [
        | inr foreign ↦ ground arith
        | inl known ↦ elim (Bool-cases (includes (allowed_update_fields model) field)) [
          | inr closed ↦ ground arith
          | inl free ↦ elim (Bool-cases (is_truthy e (target_of e entity_id event_data))) [
            | inr missing ↦ ground arith
            | inl there ↦
                moved t
                  (entity_update model (target_of e entity_id event_data) t (set_field field value))
                  c (ground arith)
                  (refl, known, (allowed_update_fields-IsOpen model field free, inl free))
          ]
        ]
      ]
  call_of-IsAllowed now (assign_owner entity_type user_id) event_data t c h =
      let model = e.js.lower entity_type in
      let id = entity_id_of e event_data in
      let user = render_template e user_id event_data in
      elim (Bool-cases (includes allowed_automation_models model)) [
        | inr foreign ↦ ground arith
        | inl known ↦ elim (Bool-cases (is_truthy e id && truthy user)) [
          | inr missing ↦ ground arith
          | inl there ↦
              moved t (entity_update model id t (set_owner user)) c (ground arith)
                (refl, known, (set_owner-IsOpen, inr (inl refl)))
        ]
      ]
  call_of-IsAllowed now (create_notification user_id title body type) event_data t c h =
      moved t _ c h refl
  call_of-IsAllowed now (add_tag entity_type tag) event_data t c h =
      let model = e.js.lower entity_type in
      let id = entity_id_of e event_data in
      elim (Bool-cases (includes allowed_automation_models model)) [
        | inr foreign ↦ ground arith
        | inl known ↦ elim (Bool-cases (is_truthy e id)) [
          | inr missing ↦ ground arith
          | inl there ↦
              moved t (entity_update model id t (push_tag tag)) c (ground arith)
                (refl, known, (push_tag-IsOpen, inr (inr refl)))
        ]
      ]
  call_of-IsAllowed now other_action event_data t c h = ground arith

  -- An action adds to the calls at most one, which is for the tenant of the event; a call that
  -- changes an entity is of a model in the whitelist, and writes a column in the whitelist of the
  -- model, the owner or the tags, never the tenant, the role or a hash of a secret. An action that
  -- fails adds none.
  pub execute-IsAllowed :
      (now : ℕ) (action : Action e.js.Num) (event_data : Event e) (t : String)
      (calls : List (Call e.js.Num))
      → let (r, after) = execute e now action event_data t calls in
        (after ≡ calls)
        ⊎ ((c : Call e.js.Num) × (after ≡ c ∷ calls) × (r.success ≡ true) × IsAllowed t c)
  unfolding execute
  execute-IsAllowed now action event_data t calls =
      elim (Option-cases (call_of e now action event_data t)) [
        | inl nothing ↦ inl (ground arith)
        | inr (c, made) ↦ elim (Bool-cases (e.takes calls c)) [
          | inr refused ↦ inl (ground arith)
          | inl taken ↦
              inr (c, ground arith, ground arith, call_of-IsAllowed now action event_data t c made)
        ]
      ]

  -- Where the event data have no entity id of their own, an action that assigns an owner or adds a
  -- tag, or updates a field without an id in its configuration, does nothing and reports success.
  pub execute-idle :
      (now : ℕ) (entity_type user_id tag field t : String) (value event_data : Event e)
      (calls : List (Call e.js.Num))
      → step_into e.js event_data "entityId" ≡ undefined
      → let idle = λ (a : Action e.js.Num).
        execute e now a event_data t calls ≡ (record { success = true }, calls) in
        idle (assign_owner entity_type user_id)
        × idle (add_tag entity_type tag)
        × idle (update_field entity_type none field value)
  unfolding execute call_of execute_update_field execute_assign_owner execute_add_tag
  execute-idle now entity_type user_id tag field t value event_data calls h =
      (ground arith, ground arith, ground arith)
