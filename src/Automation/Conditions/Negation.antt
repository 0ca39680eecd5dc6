-- ===== src/Automation/Conditions/Negation.antt =====
-- The negation of a condition tree.
use crm_with_blockchain_rag.Base.{
  Bool, List, Option, Option-cases, [], arith, inl, inr, none, not, refl, some, ◌∷◌, ◌≡◌,
}
use crm_with_blockchain_rag.Automation.Types.{
  Json, Js, Operator, eq, neq, gt, gte, lt, lte, contains, not_contains, in_list, not_in, is_empty,
  is_not_empty, changed_to, other_operator, Logic, conjunction, disjunction, Group, group,
  Condition, single, nested, Conditions, no_conditions, condition,
}
use crm_with_blockchain_rag.Automation.Conditions.{
  compare_values, resolve_field, evaluate_condition, evaluate, result, results, combine,
}

-- The operator that tests the contrary; a comparison of numbers has none, as it fails on NaN
-- whichever way it is asked.
abbrev pub contrary : Operator → Option Operator
contrary eq = some neq
contrary neq = some eq
contrary changed_to = some neq
contrary contains = some not_contains
contrary not_contains = some contains
contrary in_list = some not_in
contrary not_in = some in_list
contrary is_empty = some is_not_empty
contrary is_not_empty = some is_empty
contrary _ = none

abbrev pub other_logic : Logic → Logic
other_logic conjunction = disjunction
other_logic disjunction = conjunction

module _ {N : Type 0} where
  -- The tree with contrary tests, and AND and OR exchanged; none where a test has no contrary.
  unfoldable mutual
    pub negate : Group N → Option (Group N)
    negate (group logic cs) = elim (negate_all cs) [
      | none ↦ none
      | some ds ↦ some (group (other_logic logic) ds)
    ]

    pub negate_one : Condition N → Option (Condition N)
    negate_one (single field op value) = elim (contrary op) [
      | none ↦ none
      | some other ↦ some (single field other value)
    ]
    negate_one (nested g) = elim (negate g) [ none ↦ none | some h ↦ some (nested h) ]

    pub negate_all : Conditions N → Option (Conditions N)
    negate_all no_conditions = some no_conditions
    negate_all (condition c cs) = elim (negate_one c) [
      | none ↦ none
      | some d ↦ elim (negate_all cs) [ none ↦ none | some ds ↦ some (condition d ds) ]
    ]

abbrev not_all : List Bool → List Bool
not_all [] = []
not_all (b ∷ bs) = not b ∷ not_all bs

module _ (js : Js) (event_data : Json js.Num) where
  compare_values-contrary :
      (op other : Operator) (v w : Json js.Num)
      → contrary op ≡ some other
      → compare_values js other v w ≡ not (compare_values js op v w)
  unfolding compare_values
  compare_values-contrary eq other v w h = ground arith
  compare_values-contrary neq other v w h = ground arith
  compare_values-contrary gt other v w h = ground arith
  compare_values-contrary gte other v w h = ground arith
  compare_values-contrary lt other v w h = ground arith
  compare_values-contrary lte other v w h = ground arith
  compare_values-contrary contains other v w h = ground arith
  compare_values-contrary not_contains other v w h = ground arith
  compare_values-contrary in_list other v w h = ground arith
  compare_values-contrary not_in other v w h = ground arith
  compare_values-contrary is_empty other v w h = ground arith
  compare_values-contrary is_not_empty other v w h = ground arith
  compare_values-contrary changed_to other v w h = ground arith
  compare_values-contrary other_operator other v w h = ground arith

  combine-not_all :
      (logic : Logic) (bs : List Bool)
      → combine js (other_logic logic) (not_all bs) ≡ not (combine js logic bs)
  combine-not_all conjunction [] = refl
  combine-not_all disjunction [] = refl
  combine-not_all conjunction (b ∷ bs) = ground (arith, combine-not_all conjunction bs)
  combine-not_all disjunction (b ∷ bs) = ground (arith, combine-not_all disjunction bs)

  mutual
    unfolding evaluate negate evaluate_condition

    group_negated :
        (g h : Group js.Num)
        → negate g ≡ some h
        → evaluate js h event_data ≡ not (evaluate js g event_data)
    group_negated (group logic cs) h e = elim (Option-cases (negate_all cs)) [
      | inl missing ↦ ground arith
      | inr (ds, found) ↦
          let same : group (other_logic logic) ds ≡ h = ground arith in
          rw (← same, all_negated cs ds found, combine-not_all logic (results js cs event_data))
            refl
    ]

    one_negated :
        (c d : Condition js.Num)
        → negate_one c ≡ some d
        → result js d event_data ≡ not (result js c event_data)
    one_negated (single field op value) d e = elim (Option-cases (contrary op)) [
      | inl missing ↦ ground arith
      | inr (other, found) ↦
          let same : single field other value ≡ d = ground arith in
          rw (← same)
            (compare_values-contrary op other (resolve_field js field event_data) value found)
    ]
    one_negated (nested g) d e = elim (Option-cases (negate g)) [
      | inl missing ↦ ground arith
      | inr (h, found) ↦
          let same : nested h ≡ d = ground arith in rw (← same) (group_negated g h found)
    ]

    all_negated :
        (cs ds : Conditions js.Num)
        → negate_all cs ≡ some ds
        → results js ds event_data ≡ not_all (results js cs event_data)
    all_negated no_conditions ds e =
        let same : no_conditions ≡ ds = ground arith in rw (← same) refl
    all_negated (condition c cs) ds e = elim (Option-cases (negate_one c)) [
      | inl missing ↦ ground arith
      | inr (d, here) ↦ elim (Option-cases (negate_all cs)) [
        | inl missing ↦ ground arith
        | inr (ds', rest) ↦
            let same : condition d ds' ≡ ds = ground arith in
            rw (← same) (cc (one_negated c d here, all_negated cs ds' rest))
      ]
    ]

  -- Where every test of a condition tree has a contrary one, the tree with the contrary tests, and
  -- with AND and OR exchanged, evaluates to the negation, at any depth and on any event data.
  pub evaluate-negate :
      (g h : Group js.Num)
      → negate g ≡ some h
      → evaluate js h event_data ≡ not (evaluate js g event_data)
  evaluate-negate g h e = group_negated g h e
