-- ===== src/Automation/Conditions.antt =====
-- crm-backend/src/modules/automation/engine/condition-evaluator.ts.
pub mod Holding
pub mod Negation
use Prim.Native.Char.{Char, code}
use crm_with_blockchain_rag.Base.{
  Bool, List, Option, String, [], every, false, if◌then◌else◌, none, not, some, true, ◌&&◌, ◌+++◌,
  ◌===◌, ◌==◌, ◌||◌, ◌∷◌,
}
use crm_with_blockchain_rag.Automation.Types.{
  Json, undefined, null, text, number, boolean, list, object, Items, no_items, item, Members,
  no_members, member, Js, Operator, eq, neq, gt, gte, lt, lte, contains, not_contains, in_list,
  not_in, is_empty, is_not_empty, changed_to, other_operator, Logic, conjunction, disjunction,
  Group, group, Condition, single, nested, Conditions, no_conditions, condition,
}

-- `path.split('.')`, with the key that is being read.
split_from : String → String → List String
split_from key String.[] = key ∷ []
split_from key (String.◌∷◌ c s) =
    if code c == 46 then key ∷ split_from "" s else split_from (key +++ String.◌∷◌ c String.[]) s

unfoldable pub split_dots : String → List String
unfolding split_from
split_dots s = split_from "" s

starts_with : String → String → Bool
starts_with s String.[] = true
starts_with String.[] (String.◌∷◌ d t) = false
starts_with (String.◌∷◌ c s) (String.◌∷◌ d t) = code c == code d && starts_with s t

-- `s.includes(t)`
unfoldable pub includes_text : String → String → Bool
unfolding starts_with
includes_text String.[] t = starts_with "" t
includes_text (String.◌∷◌ c s) t = starts_with (String.◌∷◌ c s) t || includes_text s t

module _ (js : Js) where
  -- `===`; lists and objects of two documents are never the same.
  abbrev pub same_value : Json js.Num → Json js.Num → Bool
  same_value undefined undefined = true
  same_value null null = true
  same_value (text s) (text t) = s === t
  same_value (number m) (number n) = js.same m n
  same_value (boolean true) (boolean b) = b
  same_value (boolean false) (boolean b) = not b
  same_value _ _ = false

  own_member : Members js.Num → String → Option (Json js.Num)
  own_member no_members k = none
  own_member (member j v ms) k = if j === k then some v else own_member ms k

  -- One step of a path.
  unfoldable pub step_into : Json js.Num → String → Json js.Num
  unfolding own_member
  step_into undefined k = undefined
  step_into null k = undefined
  step_into (object ms) k = elim (own_member ms k) [ none ↦ js.property (object ms) k | some v ↦ v ]
  step_into v k = js.property v k

  unfoldable pub walk : List String → Json js.Num → Json js.Num
  walk [] v = v
  walk (k ∷ ks) v = walk ks (step_into v k)

  unfoldable pub resolve_field : String → Json js.Num → Json js.Num
  resolve_field path event_data = walk (split_dots path) event_data

  -- `values.includes(v)`
  unfoldable pub includes_value : Items js.Num → Json js.Num → Bool
  includes_value no_items v = false
  includes_value (item w ws) v = same_value w v || includes_value ws v

  abbrev pub is_blank : Json js.Num → Bool
  is_blank undefined = true
  is_blank null = true
  is_blank (text s) = s === ""
  is_blank _ = false

  abbrev pub in_values : Json js.Num → Json js.Num → Bool
  in_values (list ws) v = includes_value ws v
  in_values _ v = false

  abbrev pub contains_value : Json js.Num → Json js.Num → Bool
  contains_value v w = includes_text (js.lower (js.text_of v)) (js.lower (js.text_of w))

  -- The test of an operator on the actual value and the value of the condition.
  unfoldable pub compare_values : Operator → Json js.Num → Json js.Num → Bool
  compare_values eq v w = same_value v w
  compare_values neq v w = not (same_value v w)
  compare_values gt v w = js.less (js.number_of w) (js.number_of v)
  compare_values gte v w = js.at_most (js.number_of w) (js.number_of v)
  compare_values lt v w = js.less (js.number_of v) (js.number_of w)
  compare_values lte v w = js.at_most (js.number_of v) (js.number_of w)
  compare_values contains v w = contains_value v w
  compare_values not_contains v w = not (contains_value v w)
  compare_values in_list v w = in_values w v
  compare_values not_in v w = not (in_values w v)
  compare_values is_empty v w = is_blank v
  compare_values is_not_empty v w = not (is_blank v)
  compare_values changed_to v w = same_value v w
  compare_values other_operator v w = false

  unfoldable pub evaluate_condition : String → Operator → Json js.Num → Json js.Num → Bool
  evaluate_condition field op value event_data =
      compare_values op (resolve_field field event_data) value

  abbrev pub some_true : List Bool → Bool
  some_true [] = false
  some_true (b ∷ bs) = b || some_true bs

  abbrev pub combine : Logic → List Bool → Bool
  combine conjunction rs = every (λ r. r) rs
  combine disjunction rs = some_true rs

  unfoldable mutual
    pub evaluate : Group js.Num → Json js.Num → Bool
    evaluate (group logic cs) event_data = combine logic (results cs event_data)

    pub result : Condition js.Num → Json js.Num → Bool
    result (single field op value) event_data = evaluate_condition field op value event_data
    result (nested g) event_data = evaluate g event_data

    pub results : Conditions js.Num → Json js.Num → List Bool
    results no_conditions event_data = []
    results (condition c cs) event_data = result c event_data ∷ results cs event_data

  -- `evaluateWorkflowConditions`: a workflow without conditions always runs.
  unfoldable pub evaluate_workflow_conditions : Option (Group js.Num) → Json js.Num → Bool
  evaluate_workflow_conditions none event_data = true
  evaluate_workflow_conditions (some (group logic no_conditions)) event_data = true
  evaluate_workflow_conditions (some (group logic (condition c cs))) event_data =
      evaluate (group logic (condition c cs)) event_data
