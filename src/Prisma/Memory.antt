-- ===== src/Prisma/Memory.antt =====
-- A table as a list of rows and a supply of keys: an instance of the interface, for the tests.
pub mod Instance
use crm_with_blockchain_rag.Base.{
  All, Bool, Bool-cases, List, Option, Option-cases, String, [], arith, eq_iff, if◌then◌else◌, inl,
  inr, none, not, refl, some, true, ◌&&◌, ◌===◌, ◌∷◌, ◌≡◌,
}
use crm_with_blockchain_rag.Prisma.Laws.{===_refl}

pub record Rows (Row : Type 0) : Type 0 where
  pub rows : List Row
  pub supply : List String

module _ {Row : Type 0} (key : Row → String) where
  abbrev pub find_key : String → List Row → Option Row
  find_key k [] = none
  find_key k (r ∷ rs) = if key r === k then some r else find_key k rs

  -- A row counts unless one above it has its key.
  abbrev pub first_row : (Row → Bool) → List Row → Option Row
  first_row p [] = none
  first_row p (r ∷ rs) = if p r then some r else first_row (λ x. p x && not (key r === key x)) rs

  abbrev pub all_rows : (Row → Bool) → List Row → List Row
  all_rows p [] = []
  all_rows p (r ∷ rs) =
      let rest = all_rows (λ x. p x && not (key r === key x)) rs in if p r then r ∷ rest else rest

  abbrev pub change_key : String → (Row → Row) → List Row → Option (Row × List Row)
  change_key k f [] = none
  change_key k f (r ∷ rs) =
      let rest = change_key k f rs in
      if key r === k
      then some (f r, f r ∷ rs)
      else elim rest [ none ↦ none | some (x, rs') ↦ some (x, r ∷ rs') ]

  abbrev pub insert_row : (String → Row) → Rows Row → Option (Row × Rows Row)
  insert_row row s = elim (s.supply) [
    | [] ↦ none
    | i ∷ is ↦ elim (find_key i s.rows) [
      | some _ ↦ none
      | none ↦ some (row i, record { rows = row i ∷ s.rows; supply = is })
    ]
  ]

  abbrev pub delete_key : String → List Row → List Row
  delete_key k [] = []
  delete_key k (r ∷ rs) = if key r === k then delete_key k rs else r ∷ delete_key k rs

  pub delete_key_lem :
      (k j : String) (s : List Row)
      → find_key j (delete_key k s) ≡ (if k === j then none else find_key j s)
  delete_key_lem k j [] = ground arith
  delete_key_lem k j (r ∷ rs) =
      ground (arith, eq_iff (key r) k, eq_iff (key r) j, eq_iff k j, delete_key_lem k j rs)

  -- A row that is deleted takes those below it with its key along.
  abbrev pub delete_all : (Row → Bool) → List Row → List Row
  delete_all p [] = []
  delete_all p (r ∷ rs) =
      let rest = delete_all p rs in if p r then delete_key (key r) rest else r ∷ rest

  pub delete_all_lem :
      (p : Row → Bool) (s : List Row) (j : String)
      → find_key j (delete_all p s)
        ≡ (elim (find_key j s) [ none ↦ none | some r ↦ if p r then none else some r ])
  delete_all_lem p [] j = refl
  delete_all_lem p (r ∷ rs) j =
      ground (arith, delete_all_lem p rs j, delete_key_lem (key r) j (delete_all p rs))

  pub find_key_lem : (k : String) (s : List Row) (r : Row) → find_key k s ≡ some r → key r ≡ k
  find_key_lem k [] r e = cc
  find_key_lem k (x ∷ xs) r e = ground (arith, eq_iff (key x) k, find_key_lem k xs r)

  pub first_row_sound :
      (p : Row → Bool) (s : List Row) (r : Row)
      → first_row p s ≡ some r
      → (p r ≡ true) × (find_key (key r) s ≡ some r)
  first_row_sound p [] r e = cc
  first_row_sound p (x ∷ xs) r e = ground (
    arith,
    ===_refl (key x),
    eq_iff (key x) (key r),
    first_row_sound (λ y. p y && not (key x === key y)) xs r,
  )

  pub first_row_complete :
      (p : Row → Bool) (s : List Row) (k : String) (r : Row)
      → find_key k s ≡ some r
      → p r ≡ true
      → first_row p s ≡ none
      → none ≡ some r
  first_row_complete p [] k r e h n = e
  first_row_complete p (x ∷ xs) k r e h n = ground (
    arith,
    find_key_lem k xs r,
    eq_iff (key x) (key r),
    eq_iff (key x) k,
    first_row_complete (λ y. p y && not (key x === key y)) xs k r,
  )

  pub all_rows_sound :
      (p : Row → Bool) (s : List Row) (whole : List Row)
      → ((r : Row) → find_key (key r) s ≡ some r → p r ≡ true → find_key (key r) whole ≡ some r)
      → All (λ r. (p r ≡ true) × (find_key (key r) whole ≡ some r)) (all_rows p s)
  all_rows_sound p [] whole h = tt
  all_rows_sound p (x ∷ xs) whole h =
      let rest : All (λ r. (p r ≡ true) × (find_key (key r) whole ≡ some r))
          (all_rows (λ y. p y && not (key x === key y)) xs) =
        weaken x p whole _ (
          all_rows_sound (λ y. p y && not (key x === key y)) xs whole
            λ r found hr. h r (ground (arith, eq_iff (key x) (key r))) (ground arith)) in
      elim (Bool-cases (p x)) [
        | inl y ↦ rw y ((y, h x (rw (===_refl (key x))) y), rest)
        | inr n ↦ rw n rest
      ]
    where
      weaken :
          (x : Row) (p : Row → Bool) (whole l : List Row)
          → All (λ r. ((p r && not (key x === key r)) ≡ true) × (find_key (key r) whole ≡ some r)) l
          → All (λ r. (p r ≡ true) × (find_key (key r) whole ≡ some r)) l
      weaken x p whole [] a = tt
      weaken x p whole (r ∷ rs) a = ((ground arith, a.0.1), weaken x p whole rs a.1)

  pub change_key-none :
      (k : String) (f : Row → Row) (s : List Row) → change_key k f s ≡ none → find_key k s ≡ none
  change_key-none k f [] e = refl
  change_key-none k f (x ∷ xs) e = ground (arith, change_key-none k f xs)

  pub change_key-some :
      (k : String) (f : Row → Row) (s s' : List Row) (r' : Row)
      → ((r : Row) → key (f r) ≡ key r)
      → change_key k f s ≡ some (r', s')
      → (r : Row) × (find_key k s ≡ some r)
        × (r' ≡ f r)
        × ((j : String) → find_key j s' ≡ (if k === j then some (f r) else find_key j s))
  change_key-some k f [] s' r' hk e = cc
  change_key-some k f (x ∷ xs) s' r' hk e = elim (Bool-cases (key x === k)) [
    | inl y ↦ (
      x,
      rw y,
      ground arith,
      λ j. ground (arith, hk x, eq_iff (key x) k, eq_iff k j, eq_iff (key x) j),
    )
    | inr n ↦ elim (Option-cases (change_key k f xs)) [
      | inl missed ↦ ground arith
      | inr ((y, ys), found) ↦
          let (r, at, same, after) = change_key-some k f xs ys y hk found in
          (
            r,
            rw n at,
            ground arith,
            λ j. ground (arith, after j, eq_iff (key x) k, eq_iff k j, eq_iff (key x) j),
          )
    ]
  ]

  abbrev pub change_all : (Row → Bool) → (Row → Row) → List Row → List Row
  change_all p f [] = []
  change_all p f (x ∷ xs) = (if p x then f x else x) ∷ change_all p f xs

  pub change_all-some :
      (p : Row → Bool) (f : Row → Row) (s : List Row) (j : String) (r : Row)
      → ((r : Row) → key (f r) ≡ key r)
      → find_key j s ≡ some r
      → find_key j (change_all p f s) ≡ some (if p r then f r else r)
  change_all-some p f [] j r hk e = cc
  change_all-some p f (x ∷ xs) j r hk e = ground (arith, hk x, change_all-some p f xs j r hk)

  pub change_all-none :
      (p : Row → Bool) (f : Row → Row) (s : List Row) (j : String)
      → ((r : Row) → key (f r) ≡ key r)
      → find_key j s ≡ none
      → find_key j (change_all p f s) ≡ none
  change_all-none p f [] j hk e = refl
  change_all-none p f (x ∷ xs) j hk e = ground (arith, hk x, change_all-none p f xs j hk)

  pub insert_row_lem :
      (row : String → Row) (s s' : Rows Row) (r : Row)
      → ((i : String) → key (row i) ≡ i)
      → insert_row row s ≡ some (r, s')
      → (r ≡ row (key r))
        × (find_key (key r) s.rows ≡ none)
        × ((j : String) → find_key j s'.rows ≡ (if key r === j then some r else find_key j s.rows))
  insert_row_lem row s s' r hk e = go s.supply refl
    where
      go :
          (l : List String)
          → s.supply ≡ l
          → (r ≡ row (key r))
            × (find_key (key r) s.rows ≡ none)
            × ((j : String)
                → find_key j s'.rows ≡ (if key r === j then some r else find_key j s.rows))
      go [] h = ground arith
      go (i ∷ is) h = elim (Option-cases (find_key i s.rows)) [
        | inl free ↦ (ground (arith, hk i), ground (arith, hk i), λ j. ground (arith, hk i))
        | inr (x, used) ↦ ground arith
      ]
