-- ===== src/Queries/Transforming.antt =====
-- `DruidQueryTransformer` (ast_druid_translator.py) and `OspreyUnaryExecutor`
-- (osprey_worker/src/osprey/engine/utils/osprey_unary_executor.py), which changes the tree.
use trust_and_safety_demo.Base.{ℕ, String, Bool, true, false, Option, none, some, if◌then◌else◌}
use trust_and_safety_demo.Execution.Values.{
  Comparator, equals, not_equals, less_than, less_than_equals, greater_than, greater_than_equals,
  is_in, not_in,
}
use trust_and_safety_demo.Ast.Grammar.{
  Name, NumberValue, negate, UnaryOperator, not_operator, usub, BooleanOperand, and_operand,
  or_operand, Expression, node, Shape, name, string, boolean, none_literal, list, call,
  unary_operation, binary_comparison, boolean_operation, Expressions,
}
use trust_and_safety_demo.Ast.Grammar
use trust_and_safety_demo.Queries.Filters.{
  Value, none_value, text, number, truth, values, Values, nil, cons, BoundOrdering, numeric,
  lexicographic, Bound, upper, lower, Filter, conjunction, disjunction, negation, selector,
  column_comparison, search, one_of, bound, Filters, no_filters, filter_and,
}

-- A DruidQueryTransformException, the exception of OspreyUnaryExecutor, and the TypeError of
-- `get_value_bound_ordering`.
pub data Refusal : Type 0 where
  transform_exception unary_exception cannot_compare : Refusal

pub data Translation (A : Type 0) : Type 0 where
  translated : A → Translation A
  refused : Refusal → Translation A

infixl 5 ◌>>=◌
abbrev pub ◌>>=◌ : {A B : Type 0} → Translation A → (A → Translation B) → Translation B
translated a >>= f = f a
refused e >>= f = refused e

-- `OspreyUnaryExecutor(node).get_execution_value()`: the value, and the node, whose operand has been
-- set to that value.
unfoldable pub execute_unary :
    ℕ → Expression → UnaryOperator → Translation (NumberValue × Expression)
execute_unary id (node i (Grammar.number n)) usub =
    translated (negate n, node id (unary_operation (node i (Grammar.number (negate n))) usub))
execute_unary id operand operator = refused unary_exception

-- `get_ast_node_value`, with the node that it leaves.
unfoldable mutual
  unfolding execute_unary

  pub get_ast_node_value : Expression → Translation (Value × Expression)
  get_ast_node_value (node id (unary_operation operand operator)) =
      execute_unary id operand operator >>= λ (n, e). translated (number n, e)
  get_ast_node_value (node id (list items)) =
      get_items items >>= λ (vs, es). translated (values vs, node id (list es))
  get_ast_node_value (node id none_literal) = translated (none_value, node id none_literal)
  get_ast_node_value (node id (string s)) = translated (text s, node id (string s))
  get_ast_node_value (node id (Grammar.number n)) =
      translated (number n, node id (Grammar.number n))
  get_ast_node_value (node id (boolean b)) = translated (truth b, node id (boolean b))
  get_ast_node_value (node id _) = refused transform_exception

  pub get_items : Expressions → Translation (Values × Expressions)
  get_items Expressions.nil = translated (nil, Expressions.nil)
  get_items (Expressions.cons e es) = get_ast_node_value e >>= λ (v, e').
      get_items es >>= λ (vs, es'). translated (cons v vs, Expressions.cons e' es')

-- `node.identifier`, if the node is a Name.
abbrev pub column : Expression → Option String
column (node id (name n)) = some n.identifier
column (node id _) = none

-- `isinstance(node, (grammar.Literal, grammar.UnaryOperation))`
abbrev pub has_value : Expression → Bool
has_value (node id (string s)) = true
has_value (node id (Grammar.number n)) = true
has_value (node id (boolean b)) = true
has_value (node id none_literal) = true
has_value (node id (list items)) = true
has_value (node id (unary_operation operand operator)) = true
has_value (node id _) = false

-- `get_comparison_dimension`
unfoldable pub get_comparison_dimension : Expression → Expression → Translation String
get_comparison_dimension left right = elim (column left) [
  | some d ↦ translated d
  | none ↦ elim (column right) [ some d ↦ translated d | none ↦ refused transform_exception ]
]

-- `get_comparison_value`: None if no side is a literal.
unfoldable pub get_comparison_value :
    Expression → Expression → Translation (Value × Expression × Expression)
unfolding get_ast_node_value
get_comparison_value left right =
    if has_value left
    then (get_ast_node_value left >>= λ (v, e). translated (v, e, right))
    else if has_value right
    then (get_ast_node_value right >>= λ (v, e). translated (v, left, e))
    else translated (none_value, left, right)

-- `get_in_query_by_value_type`
unfoldable pub get_in_query_by_value_type : String → Value → Translation Filter
get_in_query_by_value_type d (text t) = translated (search d t)
get_in_query_by_value_type d (values vs) = translated (one_of d vs)
get_in_query_by_value_type d _ = refused transform_exception

-- `get_value_bound_ordering`: a truth value is an `int`.
unfoldable pub get_value_bound_ordering : Value → Translation BoundOrdering
get_value_bound_ordering (number n) = translated numeric
get_value_bound_ordering (truth b) = translated numeric
get_value_bound_ordering (text t) = translated lexicographic
get_value_bound_ordering _ = refused cannot_compare

-- `get_druid_bound_query_props`
unfoldable pub get_druid_bound_query_props : Comparator → Translation Bound
get_druid_bound_query_props less_than = translated (upper true)
get_druid_bound_query_props less_than_equals = translated (upper false)
get_druid_bound_query_props greater_than = translated (lower true)
get_druid_bound_query_props greater_than_equals = translated (lower false)
get_druid_bound_query_props _ = refused transform_exception

-- The comparison of two columns in `transform_BinaryComparison`.
unfoldable pub compare_columns : Comparator → String → String → Translation Filter
compare_columns equals d e = translated (column_comparison d e)
compare_columns not_equals d e = translated (negation (column_comparison d e))
compare_columns _ d e = refused transform_exception

-- The comparison of a column with a value in `transform_BinaryComparison`.
unfoldable pub compare_value : Comparator → String → Value → Translation Filter
unfolding get_in_query_by_value_type get_value_bound_ordering get_druid_bound_query_props
compare_value equals d v = translated (selector d v)
compare_value is_in d v = get_in_query_by_value_type d v
compare_value not_equals d v = translated (negation (selector d v))
compare_value not_in d v = get_in_query_by_value_type d v >>= λ f. translated (negation f)
compare_value c d v = get_value_bound_ordering v >>= λ o. get_druid_bound_query_props c >>= λ b.
    translated (
      conjunction
        (filter_and (negation (selector d none_value)) (filter_and (bound d o b v) no_filters)))

-- `transform_BinaryComparison`, where not both sides are columns.
unfoldable pub transform_with_value :
    ℕ → Expression → Expression → Comparator → Translation (Filter × Expression)
unfolding get_comparison_dimension get_comparison_value compare_value
transform_with_value id left right c = get_comparison_dimension left right >>= λ d.
    get_comparison_value left right >>= λ (v, left', right').
    compare_value c d v >>= λ f. translated (f, node id (binary_comparison left' right' c))

-- `transform_BinaryComparison`
unfoldable pub transform_comparison :
    ℕ → Expression → Expression → Comparator → Translation (Filter × Expression)
unfolding transform_with_value compare_columns
transform_comparison id left right c = elim (column left) [
  | none ↦ transform_with_value id left right c
  | some d ↦ elim (column right) [
    | none ↦ transform_with_value id left right c
    | some e ↦
        compare_columns c d e >>= λ f. translated (f, node id (binary_comparison left right c))
  ]
]

abbrev pub joined : BooleanOperand → Filters → Filter
joined and_operand fs = conjunction fs
joined or_operand fs = disjunction fs

-- `_transform`, with the tree that it leaves. What `to_druid_query` of the function of a call gives
-- is a parameter; it is refused where the function is no QueryUdfBase.
module _ (to_druid_query : ℕ → Translation Filter) where
  unfoldable mutual
    unfolding transform_comparison

    pub transform : Expression → Translation (Filter × Expression)
    transform (node id (boolean_operation es joiner)) = transform_all es >>= λ (fs, es').
        translated (joined joiner fs, node id (boolean_operation es' joiner))
    transform (node id (binary_comparison left right c)) = transform_comparison id left right c
    transform (node id (unary_operation operand not_operator)) = transform operand >>= λ (f, e).
        translated (negation f, node id (unary_operation e not_operator))
    transform (node id (unary_operation operand usub)) = refused transform_exception
    transform (node id (call func arguments)) =
        to_druid_query id >>= λ f. translated (f, node id (call func arguments))
    transform (node id _) = refused transform_exception

    pub transform_all : Expressions → Translation (Filters × Expressions)
    transform_all Expressions.nil = translated (no_filters, Expressions.nil)
    transform_all (Expressions.cons e es) = transform e >>= λ (f, e').
        transform_all es >>= λ (fs, es'). translated (filter_and f fs, Expressions.cons e' es')
