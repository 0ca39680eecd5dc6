-- ===== src/Tenancy.antt =====
-- Tenant scoping: crm-backend/src/core/database/prisma.service.ts (the query extension) and
-- crm-backend/src/common/middleware/tenant-context.middleware.ts (the context it reads).
pub mod Isolation
pub mod Queries
pub mod Scoped
use crm_with_blockchain_rag.Base.{
  String, Bool, true, false, Option, none, some, List, [], ◌∷◌, map, ◌||◌, not, truthy, includes,
  if◌then◌else◌,
}

-- The part of `TenantContext` that the extension reads; `none` for the null that
-- `withoutTenantScope` stores.
pub record TenantContext : Type 0 where
  pub tenant_id : Option String

-- The operations of the client, those that the extension names and the others.
pub data Operation : Type 0 where
  find_many find_first count aggregate group_by : Operation
  find_unique upsert create create_many : Operation
  update delete update_many delete_many : Operation

-- The tenant parts of a query's arguments: `where.tenantId`, and `data.tenantId` of each row.
pub record Args : Type 0 where
  pub filter : Option String
  pub rows : List (Option String)

abbrev unscoped_models : List String
unscoped_models = "Tenant" ∷ "BillingInfo" ∷ []

abbrev pub read_op : Operation → Bool
read_op find_many = true
read_op find_first = true
read_op count = true
read_op aggregate = true
read_op group_by = true
read_op _ = false

abbrev pub write_op : Operation → Bool
write_op update = true
write_op delete = true
write_op update_many = true
write_op delete_many = true
write_op _ = false

abbrev pub creates : Operation → Bool
creates create = true
creates create_many = true
creates _ = false

-- `tenantContext.getStore()?.tenantId`, with the falsy values as `none`.
unfoldable pub current_tenant : Option TenantContext → Option String
current_tenant none = none
current_tenant (some c) = elim (c.tenant_id) [
  | none ↦ none
  | some t ↦ if truthy t then some t else none
]

-- The branches of `$allOperations` below the bypass, for a tenant.
scope : String → Operation → Args → Args
scope t op args =
    if read_op op
    then record args { filter = some t }
    else if creates op
    then record args { rows = map (λ _. some t) args.rows }
    else if write_op op
    then record args { filter = some t }
    else args

-- `$allOperations`: the arguments that reach the database.
unfoldable pub all_operations : Option TenantContext → String → Operation → Args → Args
unfolding scope current_tenant
all_operations store model op args = elim (current_tenant store) [
  | none ↦ args
  | some t ↦ if includes unscoped_models model then args else scope t op args
]

-- The middleware's context for a request: the payload of its token, where one is sent and verifies.
unfoldable pub request_context : Option String → Option TenantContext
request_context (some t) =
    if truthy t then some (record { tenant_id = some t }) else some (record { tenant_id = some "" })
request_context none = some (record { tenant_id = some "" })

-- The context under which `withoutTenantScope` runs its argument.
unfoldable pub without_tenant_scope : Option TenantContext
without_tenant_scope = some (record { tenant_id = none })
