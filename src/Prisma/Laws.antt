-- ===== src/Prisma/Laws.antt =====
-- Consequences of a table's laws that several repositories use.
use crm_with_blockchain_rag.Base.{
  ◌≡◌, ◌≢◌, refl, String, Bool, true, false, none, some, ◌===◌, arith, eq_iff, Option-cases, inl,
  inr,
}
use crm_with_blockchain_rag.Prisma.Defs.{Table}

pub ===_refl : (s : String) → (s === s) ≡ true
===_refl s = (eq_iff s s).1 refl

pub ===_ne : {s t : String} → s ≢ t → (s === t) ≡ false
===_ne {s} {t} h = ground (arith, eq_iff s t)

module _ {Row : Type 0} (t : Table Row) where
  -- A row that is there is still there after a create.
  pub create-keeps :
      (row : String → Row) (s s' : t.State) (r x : Row) (j : String)
      → ((i : String) → t.key (row i) ≡ i)
      → t.create row s ≡ some (r, s')
      → t.find_unique j s ≡ some x
      → t.find_unique j s' ≡ some x
  create-keeps row s s' r x j hk e found =
      let (_, absent, after) = t.create_lem row s s' r hk e in
      ground (arith, after j, eq_iff (t.key r) j, absent)

  -- The row that a create returns is found by its key.
  pub create-finds :
      (row : String → Row) (s s' : t.State) (r : Row)
      → ((i : String) → t.key (row i) ≡ i)
      → t.create row s ≡ some (r, s')
      → t.find_unique (t.key r) s' ≡ some r
  create-finds row s s' r hk e =
      let (_, _, after) = t.create_lem row s s' r hk e in
      ground (arith, after (t.key r), ===_refl (t.key r))

  -- A condition that some row meets is still met after a create.
  pub find_first-create :
      (p : Row → Bool) (row : String → Row) (s s' : t.State) (r : Row)
      → ((i : String) → t.key (row i) ≡ i)
      → t.create row s ≡ some (r, s')
      → t.find_first p s ≢ none
      → t.find_first p s' ≢ none
  find_first-create p row s s' r hk e h = elim (Option-cases (t.find_first p s)) [
    | inl missed ↦ absurd (h missed)
    | inr (x, found) ↦
        let (px, at) = t.find_first_sound p s x found in
        t.find_first_complete p s' (t.key x) x (create-keeps row s s' r x (t.key x) hk e at) px
  ]
