-- ===== src/Tenancy/Queries.antt =====
-- A query under the extension of the client: the tenant filter that reaches the database, the tenant
-- of a row that is created, and whether a row passes the filter.
use crm_with_blockchain_rag.Base.{Bool, Option, String, [], none, some, true, ℕ, ◌===◌, ◌∷◌}
use crm_with_blockchain_rag.Tenancy.{Operation, TenantContext, all_operations}

-- What a call finds outside the database: the tenant context, the clock, and whether the commit at
-- the end of an outer transaction succeeds.
pub record Env : Type 0 where
  pub store : Option TenantContext
  pub now : ℕ
  pub commits : Bool

abbrev pub tenant_filter : Env → String → Operation → Option String → Option String
tenant_filter env model op filter =
    (all_operations env.store model op (record { filter = filter; rows = [] })).filter

abbrev pub row_tenant : Env → String → String → String
row_tenant env model tenant_id =
    elim ((all_operations env.store model Operation.create
      (record { filter = none; rows = some tenant_id ∷ [] })).rows) [
        | [] ↦ tenant_id
        | r ∷ _ ↦ elim r [ none ↦ tenant_id | some t ↦ t ]
      ]

abbrev pub passes : Option String → String → Bool
passes none owner = true
passes (some t) owner = owner === t
