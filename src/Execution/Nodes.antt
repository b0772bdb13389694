-- ===== src/Execution/Nodes.antt =====
-- The executors of the nodes.
use trust_and_safety_demo.Base.{
  String, string_eq, Bool, true, false, not, ◌&&◌, ◌||◌, none, some, List, [], ◌∷◌, if◌then◌else◌,
  any,
}
use trust_and_safety_demo.Base.Dict.{Dict, put}
use trust_and_safety_demo.Execution.Values.{
  Attempt, returned, raised, ◌>>=◌, Comparator, equals, not_equals, less_than, less_than_equals,
  greater_than, greater_than_equals, is_in, not_in, Values, Node, Resolved, resolved,
}

unfoldable pub left_can_be_none : Comparator → Bool
left_can_be_none is_in = true
left_can_be_none not_in = true
left_can_be_none equals = true
left_can_be_none not_equals = true
left_can_be_none _ = false

unfoldable pub right_can_be_none : Comparator → Bool
right_can_be_none equals = true
right_can_be_none not_equals = true
right_can_be_none _ = false

unfoldable pub handles_none_comparison : Comparator → Bool
handles_none_comparison less_than = true
handles_none_comparison less_than_equals = true
handles_none_comparison greater_than = true
handles_none_comparison greater_than_equals = true
handles_none_comparison _ = false

-- The operand of a boolean operation.
pub data BooleanOperator : Type 0 where
  and_operator or_operator : BooleanOperator

module _ {V : Type 0} ⦃o : Values V⦄ where
  unfoldable pub in_operator : V → V → Attempt Bool
  in_operator a b =
      if o.is_none a
        && (o.is_none b || elim (o.list_items b) [ none ↦ false | some vs ↦ any o.is_none vs ])
      then returned true
      else if o.is_none a || o.is_none b
      then returned false
      else o.contained a b

  -- `_COMPARATORS`
  unfoldable pub comparator : Comparator → V → V → Attempt Bool
  unfolding in_operator
  comparator is_in a b = in_operator a b
  comparator not_in a b = do r ← in_operator a b; returned (not r)
  comparator c a b = o.compare_with c a b

  -- `BinaryComparisonExecutor.execute`
  unfoldable pub binary_comparison : Comparator → Node → Node → Resolved V → Attempt Bool
  unfolding comparator left_can_be_none right_can_be_none handles_none_comparison resolved
  binary_comparison c left right values = do
    l ← resolved values left (left_can_be_none c)
    r ← resolved values right (right_can_be_none c)
    if handles_none_comparison c && (o.is_none l || o.is_none r)
        then returned false
        else comparator c l r

  -- `all` and `any` of the values, which are resolved one after the other as far as needed.
  unfoldable pub all_of : List Node → Resolved V → Attempt Bool
  unfolding resolved
  all_of [] values = returned true
  all_of (n ∷ ns) values =
      let rest = all_of ns values in
      resolved values n true >>= λ v. if o.truthy v then rest else returned false

  unfoldable pub any_of : List Node → Resolved V → Attempt Bool
  unfolding resolved
  any_of [] values = returned false
  any_of (n ∷ ns) values =
      let rest = any_of ns values in
      resolved values n true >>= λ v. if o.truthy v then returned true else rest

  -- `BooleanOperationExecutor.execute`
  unfoldable pub boolean_operation : BooleanOperator → List Node → Resolved V → Attempt Bool
  unfolding all_of any_of
  boolean_operation and_operator nodes values = all_of nodes values
  boolean_operation or_operator nodes values = any_of nodes values

  -- `UnaryOperationExecutor.execute` and `BinaryOperationExecutor.execute`, with the operator.
  unfoldable pub unary_operation : (V → Attempt V) → Node → Resolved V → Attempt V
  unfolding resolved
  unary_operation operator operand values = do v ← resolved values operand false; operator v

  unfoldable pub binary_operation : (V → V → Attempt V) → Node → Node → Resolved V → Attempt V
  unfolding resolved
  binary_operation operator left right values = do
    l ← resolved values left false
    r ← resolved values right false
    operator l r

  -- `AssignExecutor.execute`: the outputs that it leaves, and what it returns.
  unfoldable pub assign :
      String → Bool → Node → Resolved V → Dict String V → Dict String V × Attempt V
  unfolding resolved
  assign target should_extract value values outputs = elim (resolved values value true) [
    | raised e ↦ (outputs, raised e)
    | returned v ↦
        (if should_extract then put target v outputs else outputs, resolved values value false)
  ]

  -- `NameExecutor.execute` and `ListExecutor.execute`
  unfoldable pub name : Node → Resolved V → Attempt V
  unfolding resolved
  name node values = resolved values node false

  unfoldable pub list_of : List Node → Resolved V → Attempt (List V)
  unfolding resolved
  list_of [] values = returned []
  list_of (n ∷ ns) values = do
    v ← resolved values n false
    vs ← list_of ns values
    returned (v ∷ vs)
