-- ===== src/Prisma/Defs.antt =====
-- A table of the client, its calls and what the client's documentation says of them.
use crm_with_blockchain_rag.Base.{
  All, Bool, List, Option, String, if◌then◌else◌, none, some, true, ◌===◌, ◌≡◌, ◌≢◌,
}

pub record Table (Row : Type 0) : Type 1 where
  -- The content of the table, and the primary key of a row.
  pub State : Type 0
  pub key : Row → String
  -- `findUnique` on the primary key, `findFirst` and `findMany` on a condition.
  pub find_unique : String → State → Option Row
  pub find_first : (Row → Bool) → State → Option Row
  pub find_many : (Row → Bool) → State → List Row
  -- `create` is given the row without its generated key; `none` where a constraint is violated.
  pub create : (String → Row) → State → Option (Row × State)
  -- `update` on the primary key; `none` where no row has it.
  pub update : String → (Row → Row) → State → Option (Row × State)
  -- `delete` on the primary key; `none` where no row has it.
  pub delete : String → State → Option State
  -- `updateMany`, and a raw `UPDATE … SET … WHERE …`: no row need match.
  pub update_many : (Row → Bool) → (Row → Row) → State → State
  -- `deleteMany`: no row need match.
  pub delete_many : (Row → Bool) → State → State
  pub find_unique_key : (k : String) (s : State) (r : Row) → find_unique k s ≡ some r → key r ≡ k
  pub find_first_sound :
      (p : Row → Bool) (s : State) (r : Row)
      → find_first p s ≡ some r
      → (p r ≡ true) × (find_unique (key r) s ≡ some r)
  pub find_first_complete :
      (p : Row → Bool) (s : State) (k : String) (r : Row)
      → find_unique k s ≡ some r
      → p r ≡ true
      → find_first p s ≢ none
  pub find_many_sound :
      (p : Row → Bool) (s : State)
      → All (λ r. (p r ≡ true) × (find_unique (key r) s ≡ some r)) (find_many p s)
  pub create_lem :
      (row : String → Row) (s s' : State) (r : Row)
      → ((i : String) → key (row i) ≡ i)
      → create row s ≡ some (r, s')
      → (r ≡ row (key r))
        × (find_unique (key r) s ≡ none)
        × ((j : String) → find_unique j s' ≡ (if key r === j then some r else find_unique j s))
  pub update_none :
      (k : String) (f : Row → Row) (s : State) → update k f s ≡ none → find_unique k s ≡ none
  pub update_some :
      (k : String) (f : Row → Row) (s s' : State) (r' : Row)
      → ((r : Row) → key (f r) ≡ key r)
      → update k f s ≡ some (r', s')
      → (r : Row) × (find_unique k s ≡ some r)
        × (r' ≡ f r)
        × ((j : String) → find_unique j s' ≡ (if k === j then some (f r) else find_unique j s))
  pub update_many_lem :
      (p : Row → Bool) (f : Row → Row) (s : State) (j : String) (r : Row)
      → ((r : Row) → key (f r) ≡ key r)
      → find_unique j s ≡ some r
      → find_unique j (update_many p f s) ≡ some (if p r then f r else r)
  pub update_many_none :
      (p : Row → Bool) (f : Row → Row) (s : State) (j : String)
      → ((r : Row) → key (f r) ≡ key r)
      → find_unique j s ≡ none
      → find_unique j (update_many p f s) ≡ none
  pub delete_none : (k : String) (s : State) → delete k s ≡ none → find_unique k s ≡ none
  pub delete_some :
      (k : String) (s s' : State)
      → delete k s ≡ some s'
      → (find_unique k s ≢ none)
        × ((j : String) → find_unique j s' ≡ (if k === j then none else find_unique j s))
  pub delete_many_lem :
      (p : Row → Bool) (s : State) (j : String)
      → find_unique j (delete_many p s)
        ≡ (elim (find_unique j s) [ none ↦ none | some r ↦ if p r then none else some r ])
