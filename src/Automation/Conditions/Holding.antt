-- ===== src/Automation/Conditions/Holding.antt =====
-- When a condition tree holds, as a proposition beside the evaluation.
use crm_with_blockchain_rag.Base.{Bool-cases, arith, every, inl, inr, refl, true, ◌↔◌, ◌≡◌, ◌⊎◌}
use crm_with_blockchain_rag.Automation.Types.{
  Json, Js, conjunction, disjunction, Group, group, Condition, single, nested, Conditions,
  no_conditions, condition,
}
use crm_with_blockchain_rag.Automation.Conditions.{
  evaluate_condition, evaluate, result, results, some_true,
}

module _ (js : Js) (event_data : Json js.Num) where
  -- Every condition of a conjunction holds, some condition of a disjunction.
  mutual
    pub Holds : Group js.Num → Type 0
    Holds (group conjunction cs) = AllHold cs
    Holds (group disjunction cs) = SomeHolds cs

    HoldsOne : Condition js.Num → Type 0
    HoldsOne (single field op value) = evaluate_condition js field op value event_data ≡ true
    HoldsOne (nested g) = Holds g

    AllHold : Conditions js.Num → Type 0
    AllHold no_conditions = Unit
    AllHold (condition c cs) = HoldsOne c × AllHold cs

    SomeHolds : Conditions js.Num → Type 0
    SomeHolds no_conditions = ⊥
    SomeHolds (condition c cs) = HoldsOne c ⊎ SomeHolds cs

  mutual
    unfolding evaluate Holds

    evaluate-Holds : (g : Group js.Num) → evaluate js g event_data ≡ true → Holds g
    evaluate-Holds (group conjunction cs) h = all_hold cs h
    evaluate-Holds (group disjunction cs) h = some_holds cs h

    result-HoldsOne : (c : Condition js.Num) → result js c event_data ≡ true → HoldsOne c
    result-HoldsOne (single field op value) h = h
    result-HoldsOne (nested g) h = evaluate-Holds g h

    all_hold :
        (cs : Conditions js.Num) → every (λ r. r) (results js cs event_data) ≡ true → AllHold cs
    all_hold no_conditions h = tt
    all_hold (condition c cs) h = (result-HoldsOne c (ground arith), all_hold cs (ground arith))

    some_holds :
        (cs : Conditions js.Num) → some_true js (results js cs event_data) ≡ true → SomeHolds cs
    some_holds no_conditions h = ground arith
    some_holds (condition c cs) h = elim (Bool-cases (result js c event_data)) [
      | inl here ↦ inl (result-HoldsOne c here)
      | inr there ↦ inr (some_holds cs (ground arith))
    ]

  mutual
    unfolding evaluate Holds

    Holds-evaluate : (g : Group js.Num) → Holds g → evaluate js g event_data ≡ true
    Holds-evaluate (group conjunction cs) h = conjuncts_true cs h
    Holds-evaluate (group disjunction cs) h = disjunct_true cs h

    HoldsOne-result : (c : Condition js.Num) → HoldsOne c → result js c event_data ≡ true
    HoldsOne-result (single field op value) h = h
    HoldsOne-result (nested g) h = Holds-evaluate g h

    conjuncts_true :
        (cs : Conditions js.Num) → AllHold cs → every (λ r. r) (results js cs event_data) ≡ true
    conjuncts_true no_conditions h = refl
    conjuncts_true (condition c cs) (h, hs) =
        ground (arith, HoldsOne-result c h, conjuncts_true cs hs)

    disjunct_true :
        (cs : Conditions js.Num) → SomeHolds cs → some_true js (results js cs event_data) ≡ true
    disjunct_true no_conditions h = elim h [ ]
    disjunct_true (condition c cs) (inl h) = ground (arith, HoldsOne-result c h)
    disjunct_true (condition c cs) (inr hs) = ground (arith, disjunct_true cs hs)

  -- The evaluation of a condition tree is true exactly if the tree holds: if all conditions of each
  -- group with AND and some condition of each group with OR hold, at any depth.
  pub evaluate_iff : (g : Group js.Num) → (evaluate js g event_data ≡ true) ↔ Holds g
  evaluate_iff g = (evaluate-Holds g, Holds-evaluate g)
