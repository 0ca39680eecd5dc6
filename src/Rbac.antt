-- ===== src/Rbac.antt =====
-- Roles and permissions: crm-backend/src/modules/rbac/rbac.service.ts and the guard of
-- crm-backend/src/common/guards/roles.guard.ts.
pub mod Hierarchy
use crm_with_blockchain_rag.Base.{
  Bool, List, Option, String, [], false, find, if◌then◌else◌, includes, ltb, none, some, ℕ, ◌===◌,
  ◌∷◌,
}

-- A resource and the actions allowed on it.
pub record Permission : Type 0 where
  pub resource : String
  pub actions : List String

abbrev on : String → List String → Permission
on resource actions = record { resource = resource; actions = actions }

abbrev pub all_actions : List String
all_actions = "create" ∷ "read" ∷ "update" ∷ "delete" ∷ []

abbrev pub read_only : List String
read_only = "read" ∷ []

-- A value under a key of an object literal.
abbrev pub entry {ℓ} : {A : Type ℓ} → List (String × A) → String → Option A
entry [] k = none
entry ((j, v) ∷ rest) k = if j === k then some v else entry rest k

abbrev pub role_levels : List (String × ℕ)
role_levels =
    ("SUPER_ADMIN", 100)
    ∷ ("ADMIN", 80)
    ∷ ("SALES_MANAGER", 60)
    ∷ ("SALES_REP", 40)
    ∷ ("SUPPORT_AGENT", 30)
    ∷ ("VIEWER", 10)
    ∷ []

abbrev super_admin_permissions : List Permission
super_admin_permissions =
    on "users" all_actions
    ∷ on "billing" all_actions
    ∷ on "integrations" all_actions
    ∷ on "webhooks" all_actions
    ∷ on "tenant" all_actions
    ∷ on "leads" all_actions
    ∷ on "contacts" all_actions
    ∷ on "deals" all_actions
    ∷ on "companies" all_actions
    ∷ on "tickets" all_actions
    ∷ on "tasks" all_actions
    ∷ on "activities" all_actions
    ∷ on "analytics" all_actions
    ∷ on "automation" all_actions
    ∷ on "pipelines" all_actions
    ∷ on "rbac" all_actions
    ∷ []

abbrev admin_permissions : List Permission
admin_permissions =
    on "users" all_actions
    ∷ on "billing" read_only
    ∷ on "integrations" all_actions
    ∷ on "webhooks" all_actions
    ∷ on "tenant" ("read" ∷ "update" ∷ [])
    ∷ on "leads" all_actions
    ∷ on "contacts" all_actions
    ∷ on "deals" all_actions
    ∷ on "companies" all_actions
    ∷ on "tickets" all_actions
    ∷ on "tasks" all_actions
    ∷ on "activities" all_actions
    ∷ on "analytics" all_actions
    ∷ on "automation" all_actions
    ∷ on "pipelines" all_actions
    ∷ on "rbac" read_only
    ∷ []

abbrev sales_manager_permissions : List Permission
sales_manager_permissions =
    on "users" ("read" ∷ "update" ∷ [])
    ∷ on "leads" all_actions
    ∷ on "contacts" all_actions
    ∷ on "deals" all_actions
    ∷ on "companies" all_actions
    ∷ on "tickets" read_only
    ∷ on "tasks" all_actions
    ∷ on "activities" all_actions
    ∷ on "analytics" read_only
    ∷ on "automation" read_only
    ∷ on "pipelines" ("read" ∷ "update" ∷ [])
    ∷ []

abbrev sales_rep_permissions : List Permission
sales_rep_permissions =
    on "leads" all_actions
    ∷ on "contacts" all_actions
    ∷ on "deals" all_actions
    ∷ on "companies" ("read" ∷ "create" ∷ "update" ∷ [])
    ∷ on "tasks" all_actions
    ∷ on "activities" ("create" ∷ "read" ∷ "update" ∷ [])
    ∷ on "tickets" read_only
    ∷ on "analytics" read_only
    ∷ on "pipelines" read_only
    ∷ []

abbrev support_agent_permissions : List Permission
support_agent_permissions =
    on "tickets" all_actions
    ∷ on "contacts" ("read" ∷ "update" ∷ [])
    ∷ on "activities" ("create" ∷ "read" ∷ [])
    ∷ on "leads" read_only
    ∷ on "deals" read_only
    ∷ on "companies" read_only
    ∷ on "tasks" ("create" ∷ "read" ∷ "update" ∷ [])
    ∷ []

abbrev viewer_permissions : List Permission
viewer_permissions =
    on "leads" read_only
    ∷ on "contacts" read_only
    ∷ on "deals" read_only
    ∷ on "companies" read_only
    ∷ on "tickets" read_only
    ∷ on "tasks" read_only
    ∷ on "activities" read_only
    ∷ on "analytics" read_only
    ∷ on "pipelines" read_only
    ∷ []

role_permissions : List (String × List Permission)
role_permissions =
    ("SUPER_ADMIN", super_admin_permissions)
    ∷ ("ADMIN", admin_permissions)
    ∷ ("SALES_MANAGER", sales_manager_permissions)
    ∷ ("SALES_REP", sales_rep_permissions)
    ∷ ("SUPPORT_AGENT", support_agent_permissions)
    ∷ ("VIEWER", viewer_permissions)
    ∷ []

-- `permissions.find(p => p.resource === resource)` and the test of its actions.
unfoldable pub allows : List Permission → String → String → Bool
allows permissions resource action = elim (find (λ p. p.resource === resource) permissions) [
  | none ↦ false
  | some p ↦ includes p.actions action
]

unfoldable pub has_permission : String → String → String → Bool
unfolding role_permissions
has_permission role resource action = elim (entry role_permissions role) [
  | none ↦ false
  | some permissions ↦ allows permissions resource action
]

-- `ROLE_LEVELS[role] ?? 0`
unfoldable pub level : String → ℕ
level role = elim (entry role_levels role) [ none ↦ 0 | some n ↦ n ]

unfoldable pub can_manage_user : String → String → Bool
can_manage_user actor_role target_role = ltb (level target_role) (level actor_role)

abbrev pub names_below : ℕ → List (String × ℕ) → List String
names_below n [] = []
names_below n ((r, l) ∷ rest) = if ltb l n then r ∷ names_below n rest else names_below n rest

-- `canManage` of `getPermissionsForRole`.
unfoldable pub manageable_roles : String → List String
manageable_roles role = names_below (level role) role_levels

-- What the guard does with a request.
pub data Access : Type 0 where
  granted forbidden : Access

-- `canActivate`; the roles that the route asks for, and the role of the user, if there is one.
unfoldable pub can_activate : Option (List String) → Option String → Access
can_activate none user = granted
can_activate (some []) user = granted
can_activate (some (r ∷ rest)) none = forbidden
can_activate (some (r ∷ rest)) (some role) =
    if role === "SUPER_ADMIN"
    then granted
    else if includes (r ∷ rest) role
    then granted
    else forbidden
