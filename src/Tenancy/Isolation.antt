-- ===== src/Tenancy/Isolation.antt =====
-- What the query extension guarantees for each kind of operation.
use crm_with_blockchain_rag.Base.{
  ◌≡◌, refl, String, true, false, Option, none, some, List, [], ◌∷◌, map, All, includes, truthy,
  arith, ◌⊎◌,
}
use crm_with_blockchain_rag.Tenancy.{
  TenantContext, Operation, Args, read_op, write_op, creates, unscoped_models, current_tenant,
  scope, all_operations, request_context, without_tenant_scope,
}

-- A row that a filter on the tenant lets through.
abbrev pub Selects : Option String → String → Type 0
Selects none owner = Unit
Selects (some t) owner = owner ≡ t

map-const :
    (t : String) (rows : List (Option String)) → All (λ r. r ≡ some t) (map (λ _. some t) rows)
map-const t [] = tt
map-const t (r ∷ rows) = (refl, map-const t rows)

scoped_call :
    (t model : String) (op : Operation) (args : Args)
    → truthy t ≡ true
    → includes unscoped_models model ≡ false
    → all_operations (some (record { tenant_id = some t })) model op args ≡ scope t op args
unfolding all_operations
scoped_call t model op args ht hm = ground arith

scope_reads :
    (t owner : String) (op : Operation) (args : Args)
    → (read_op op ≡ true) ⊎ (write_op op ≡ true)
    → Selects (scope t op args).filter owner
    → owner ≡ t
unfolding scope
scope_reads t owner Operation.find_many args h s = s
scope_reads t owner _ args h s = ground arith

scope_inserts :
    (t : String) (op : Operation) (args : Args)
    → creates op ≡ true
    → All (λ r. r ≡ some t) (scope t op args).rows
unfolding scope
scope_inserts t Operation.create args h = map-const t args.rows
scope_inserts t Operation.create_many args h = map-const t args.rows
scope_inserts t _ args h = cc

-- In the context of a tenant, on a scoped model, a read or write of the listed kinds touches only
-- rows of that tenant, whatever filter the caller wrote, and every row that a create inserts belongs
-- to that tenant, whatever the caller wrote.
pub all_operations_isolates :
    (t model owner : String) (op : Operation) (args : Args)
    → truthy t ≡ true
    → includes unscoped_models model ≡ false
    → let sent = all_operations (some (record { tenant_id = some t })) model op args in
      ((read_op op ≡ true) ⊎ (write_op op ≡ true) → Selects sent.filter owner → owner ≡ t)
      × (creates op ≡ true → All (λ r. r ≡ some t) sent.rows)
all_operations_isolates t model owner op args ht hm =
    rw (scoped_call t model op args ht hm) (scope_reads t owner op args, scope_inserts t op args)

-- The extension leaves the arguments as they are without a tenant in the context, as in a worker, on
-- an unscoped model, and for `findUnique` and `upsert`.
pub all_operations_bypass :
    (store : Option TenantContext) (model : String) (op : Operation) (args : Args)
    → (current_tenant store ≡ none)
      ⊎ (includes unscoped_models model ≡ true)
      ⊎ (op ≡ Operation.find_unique)
      ⊎ (op ≡ Operation.upsert)
    → all_operations store model op args ≡ args
unfolding all_operations
all_operations_bypass store model op args h = ground arith

-- No context that the program sets up outside a verified token names a tenant: a request without a
-- verified token, and the body of `withoutTenantScope`.
pub context_without_token :
    (current_tenant (request_context none) ≡ none) × (current_tenant without_tenant_scope ≡ none)
unfolding current_tenant request_context without_tenant_scope
context_without_token = (refl, refl)
