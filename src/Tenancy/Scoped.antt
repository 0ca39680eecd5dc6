-- ===== src/Tenancy/Scoped.antt =====
-- The calls of a repository on one table of rows with tenants, under the extension of the client.
use crm_with_blockchain_rag.Base.{
  Bool, Bool-cases, Option, Option-cases, String, arith, eq_iff, false, if◌then◌else◌, inl, inr,
  none, some, true, ◌&&◌, ◌≡◌, ◌≢◌,
}
use crm_with_blockchain_rag.Prisma.{Table, ===_refl}
use crm_with_blockchain_rag.Tenancy.{Operation}
use crm_with_blockchain_rag.Tenancy.Queries.{Env, tenant_filter, passes}

-- A table whose rows have tenants, and the name of its model.
pub record Scoped (Row : Type 0) : Type 1 where
  pub table : Table Row
  pub tenant : Row → String
  pub model : String

module _ {Row : Type 0} (t : Scoped Row) where
  -- `findFirst({ where })`, where the caller names no tenant.
  unfoldable pub find_scoped : Env → (Row → Bool) → t.table.State → Option Row
  find_scoped env p s =
      t.table.find_first
        (λ r. p r && passes (tenant_filter env t.model Operation.find_first none) (t.tenant r)) s

  -- `update({ where: { id }, data })`: `none` where no row of the tenant in the context has the key.
  unfoldable pub update_scoped :
      Env → String → (Row → Row) → t.table.State → Option (Row × t.table.State)
  update_scoped env k f s = elim (t.table.find_unique k s) [
    | none ↦ none
    | some r ↦
        if passes (tenant_filter env t.model Operation.update none) (t.tenant r)
        then t.table.update k f s
        else none
  ]

  -- `delete({ where: { id } })`
  unfoldable pub delete_scoped : Env → String → t.table.State → Option t.table.State
  delete_scoped env k s = elim (t.table.find_unique k s) [
    | none ↦ none
    | some r ↦
        if passes (tenant_filter env t.model Operation.delete none) (t.tenant r)
        then t.table.delete k s
        else none
  ]

  -- A row that is found is in the table under its key, meets the condition and is the tenant's.
  pub find_scoped_row :
      (env : Env) (p : Row → Bool) (s : t.table.State) (r : Row)
      → find_scoped env p s ≡ some r
      → (t.table.find_unique (t.table.key r) s ≡ some r)
        × (p r ≡ true)
        × (passes (tenant_filter env t.model Operation.find_first none) (t.tenant r) ≡ true)
  unfolding find_scoped
  find_scoped_row env p s r e =
      let (holds, at) = t.table.find_first_sound _ s r e in (at, ground arith, ground arith)

  -- Where a search finds nothing, no row of the tenant meets its condition.
  pub find_scoped-none :
      (env : Env) (p : Row → Bool) (s : t.table.State) (k : String) (r : Row)
      → find_scoped env p s ≡ none
      → t.table.find_unique k s ≡ some r
      → passes (tenant_filter env t.model Operation.find_first none) (t.tenant r) ≡ true
      → p r ≡ false
  unfolding find_scoped
  find_scoped-none env p s k r missed at owned = elim (Bool-cases (p r)) [
    | inr no_match ↦ no_match
    | inl holds ↦ absurd (
        t.table.find_first_complete
          (λ x. p x && passes (tenant_filter env t.model Operation.find_first none) (t.tenant x)) s
          k r at (ground arith) missed)
  ]

  -- A row found by its key is the row of the key, and the tenant's.
  pub find_scoped_sound :
      (env : Env) (p : Row → Bool) (k : String) (s : t.table.State) (r : Row)
      → ((x : Row) → p x ≡ true → t.table.key x ≡ k)
      → find_scoped env p s ≡ some r
      → (t.table.find_unique k s ≡ some r)
        × (p r ≡ true)
        × (passes (tenant_filter env t.model Operation.find_first none) (t.tenant r) ≡ true)
  unfolding find_scoped
  find_scoped_sound env p k s r keyed e =
      let (holds, at) = t.table.find_first_sound _ s r e in
      let here : p r ≡ true = ground arith in (rw (keyed r here) at at, here, ground arith)

  -- A row under a key that meets a condition on the key, and is the tenant's, is found.
  pub find_scoped_complete :
      (env : Env) (p : Row → Bool) (k : String) (s : t.table.State) (r : Row)
      → ((x : Row) → p x ≡ true → t.table.key x ≡ k)
      → t.table.find_unique k s ≡ some r
      → p r ≡ true
      → passes (tenant_filter env t.model Operation.find_first none) (t.tenant r) ≡ true
      → find_scoped env p s ≡ some r
  find_scoped_complete env p k s r keyed at here owned = elim (Option-cases (find_scoped env p s)) [
    | inr (x, found) ↦ let (also, _, _) = find_scoped_sound env p k s x keyed found in ground arith
    | inl missed ↦ absurd (
        t.table.find_first_complete
          (λ x. p x && passes (tenant_filter env t.model Operation.find_first none) (t.tenant x)) s
          k r at (ground arith) (unfold find_scoped in missed))
  ]

  -- An update that the client makes is of the row under the key, and of no other.
  pub update_scoped-some :
      (env : Env) (k : String) (f : Row → Row) (s s' : t.table.State) (q : Row)
      → ((x : Row) → t.table.key (f x) ≡ t.table.key x)
      → update_scoped env k f s ≡ some (q, s')
      → (r : Row) × (t.table.find_unique k s ≡ some r)
        × (q ≡ f r)
        × (t.table.find_unique k s' ≡ some q)
        × ((j : String) → k ≢ j → t.table.find_unique j s' ≡ t.table.find_unique j s)
        × (passes (tenant_filter env t.model Operation.update none) (t.tenant r) ≡ true)
  unfolding update_scoped
  update_scoped-some env k f s s' q hk e = elim (Option-cases (t.table.find_unique k s)) [
    | inl missing ↦ ground arith
    | inr (r, found) ↦
        elim (Bool-cases (passes (tenant_filter env t.model Operation.update none) (t.tenant r))) [
          | inr foreign ↦ ground arith
          | inl owned ↦
              let (x, at, same, after) = t.table.update_some k f s s' q hk (ground arith) in
              (
                r,
                found,
                ground arith,
                ground (arith, after k, ===_refl k),
                λ j n. ground (arith, after j, eq_iff k j),
                owned,
              )
        ]
  ]

  -- So too a deletion.
  pub delete_scoped-some :
      (env : Env) (k : String) (s s' : t.table.State)
      → delete_scoped env k s ≡ some s'
      → (t.table.find_unique k s' ≡ none)
        × ((j : String) → k ≢ j → t.table.find_unique j s' ≡ t.table.find_unique j s)
  unfolding delete_scoped
  delete_scoped-some env k s s' e = elim (Option-cases (t.table.find_unique k s)) [
    | inl missing ↦ ground arith
    | inr (r, found) ↦
        elim (Bool-cases (passes (tenant_filter env t.model Operation.delete none) (t.tenant r))) [
          | inr foreign ↦ ground arith
          | inl owned ↦
              let (_, after) = t.table.delete_some k s s' (ground arith) in
              (ground (arith, after k, ===_refl k), λ j n. ground (arith, after j, eq_iff k j))
        ]
  ]
