-- ===== src/Prisma/Memory/Instance.antt =====
-- The list of rows fills the interface of a table.
use crm_with_blockchain_rag.Base.{
  Bool, List, Option, Option-cases, String, arith, if◌then◌else◌, inl, inr, none, some, true, ◌===◌,
  ◌≡◌, ◌≢◌,
}
use crm_with_blockchain_rag.Prisma.Defs.{Table}
use crm_with_blockchain_rag.Prisma.Memory.{
  delete_key, delete_key_lem, delete_all, delete_all_lem, Rows, find_key, first_row, all_rows,
  change_key, insert_row, change_all, find_key_lem, first_row_sound, first_row_complete,
  all_rows_sound, change_key-none, change_key-some, insert_row_lem, change_all-some,
  change_all-none,
}

module _ {Row : Type 0} (key : Row → String) where
  abbrev with_supply : Rows Row → Option (Row × List Row) → Option (Row × Rows Row)
  with_supply s none = none
  with_supply s (some (r, rs)) = some (r, record s { rows = rs })

  pub complete :
      (p : Row → Bool) (s : Rows Row) (k : String) (r : Row)
      → find_key key k s.rows ≡ some r
      → p r ≡ true
      → first_row key p s.rows ≢ none
  complete p s k r e h n = cc (first_row_complete key p s.rows k r e h n)

  pub update_missing :
      (k : String) (f : Row → Row) (s : Rows Row)
      → with_supply s (change_key key k f s.rows) ≡ none
      → find_key key k s.rows ≡ none
  update_missing k f s e = ground (arith, change_key-none key k f s.rows)

  pub update_found :
      (k : String) (f : Row → Row) (s s' : Rows Row) (r' : Row)
      → ((r : Row) → key (f r) ≡ key r)
      → with_supply s (change_key key k f s.rows) ≡ some (r', s')
      → (r : Row) × (find_key key k s.rows ≡ some r)
        × (r' ≡ f r)
        × ((j : String)
            → find_key key j s'.rows ≡ (if k === j then some (f r) else find_key key j s.rows))
  update_found k f s s' r' hk e = elim (Option-cases (change_key key k f s.rows)) [
    | inl missed ↦ ground arith
    | inr ((y, ys), found) ↦
        let same : ys ≡ s'.rows = ground arith in
        let same_row : y ≡ r' = ground arith in
        change_key-some key k f s.rows s'.rows r' hk (ground arith)
  ]

  -- `delete` of the interface.
  abbrev delete_row : String → Rows Row → Option (Rows Row)
  delete_row k s = elim (find_key key k s.rows) [
    | none ↦ none
    | some _ ↦ some (record s { rows = delete_key key k s.rows })
  ]

  pub delete_missing :
      (k : String) (s : Rows Row) → delete_row k s ≡ none → find_key key k s.rows ≡ none
  delete_missing k s e = ground arith

  pub delete_found :
      (k : String) (s s' : Rows Row)
      → delete_row k s ≡ some s'
      → (find_key key k s.rows ≢ none)
        × ((j : String)
            → find_key key j s'.rows ≡ (if k === j then none else find_key key j s.rows))
  delete_found k s s' e = elim (Option-cases (find_key key k s.rows)) [
    | inl missed ↦ ground arith
    | inr (r, found) ↦ (ground arith, λ j. ground (arith, delete_key_lem key k j s.rows))
  ]

  abbrev pub memory : Table Row
  memory = record {
    State = Rows Row;
    key = key;
    find_unique = λ k s. find_key key k s.rows;
    find_first = λ p s. first_row key p s.rows;
    find_many = λ p s. all_rows key p s.rows;
    create = insert_row key;
    update = λ k f s. with_supply s (change_key key k f s.rows);
    delete = delete_row;
    delete_many = λ p s. record s { rows = delete_all key p s.rows };
    update_many = λ p f s. record s { rows = change_all key p f s.rows };
    find_unique_key = λ k s r e. find_key_lem key k s.rows r e;
    find_first_sound = λ p s r e. first_row_sound key p s.rows r e;
    find_first_complete = complete;
    find_many_sound = λ p s. all_rows_sound key p s.rows s.rows (λ r e h. e);
    create_lem = insert_row_lem key;
    update_none = update_missing;
    update_some = update_found;
    delete_none = delete_missing;
    delete_some = delete_found;
    delete_many_lem = λ p s j. delete_all_lem key p s.rows j;
    update_many_lem = λ p f s j r hk e. change_all-some key p f s.rows j r hk e;
    update_many_none = λ p f s j hk e. change_all-none key p f s.rows j hk e;
  }
