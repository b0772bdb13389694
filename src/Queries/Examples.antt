-- ===== src/Queries/Examples.antt =====
-- Small queries, and a Druid that answers them.
use Prim.Native.Nat.{Ordering, compare}
use trust_and_safety_demo.Base.{
  ℕ, String, ◌≡◌, refl, ap, Bool, true, false, ◌==◌, nat_eq, Option, none, some, pos,
}
use trust_and_safety_demo.Execution.Values.{equals, less_than}
use trust_and_safety_demo.Ast.Grammar.{
  load, source, int, negate, usub, not_operator, and_operand, or_operand, Expression, node, name,
  number, unary_operation, binary_comparison, boolean_operation, nil, cons,
}
use trust_and_safety_demo.Queries.Filters
use trust_and_safety_demo.Queries.Filters.{
  Value, none_value, Values, BoundOrdering, Bound, within, Filter, conjunction, disjunction,
  negation, selector, column_comparison, search, one_of, bound, of_function, Filters, no_filters,
  filter_and, filters_list, values_list, Cells, is_value, includes_text, IsDruid,
}
use trust_and_safety_demo.Queries.Transforming.{
  Translation, translated, refused, unary_exception, get_ast_node_value, transform,
  transform_comparison,
}
use trust_and_safety_demo.Queries.Truth.{
  Truth, yes, no, unknown, of_bool, not3, and3, or3, all3, any3,
}
use trust_and_safety_demo.Queries.Meaning.{holds}
use trust_and_safety_demo.Queries.Agreeing.{transform-holds}
use trust_and_safety_demo.Queries.Operands.{
  get_ast_node_value-again, transform_comparison_swap, filter_of,
}

-- Rows of a single cell, a number or null, which all columns show.
abbrev equal_number : ℕ → Value → Bool
equal_number x (Filters.number (int (pos n))) = x == n
equal_number x v = false

abbrev order_number : BoundOrdering → ℕ → Value → Ordering
order_number o x (Filters.number (int (pos n))) = compare x n
order_number o x v = Ordering.eq

abbrev same_number : Option ℕ → Option ℕ → Truth
same_number (some x) (some y) = of_bool (x == y)
same_number none none = yes
same_number x y = no

abbrev numbers : Cells
numbers = record {
  Row = Option ℕ;
  Cell = ℕ;
  cell = λ r d. r;
  equal = equal_number;
  same = same_number;
  includes = λ x t. false;
  part_of = λ x t. false;
  order = order_number;
}

mutual
  matches : Filter → Option ℕ → Truth
  matches (conjunction fs) r = all_match fs r
  matches (disjunction fs) r = any_match fs r
  matches (negation f) r = not3 (matches f r)
  matches (selector d v) r = is_value numbers r v
  matches (column_comparison d e) r = same_number r r
  matches (search d t) r = includes_text numbers r t
  matches (one_of d vs) r = any3 (λ v. is_value numbers r v) (values_list vs)
  matches (bound d o b v) r = elim r [
    | none ↦ unknown
    | some x ↦ of_bool (within b (order_number o x v))
  ]
  matches (of_function t) r = no

  all_match : Filters → Option ℕ → Truth
  all_match no_filters r = yes
  all_match (filter_and f fs) r = and3 (matches f r) (all_match fs r)

  any_match : Filters → Option ℕ → Truth
  any_match no_filters r = no
  any_match (filter_and f fs) r = or3 (matches f r) (any_match fs r)

all_match_lem :
    (fs : Filters) (r : Option ℕ) → all_match fs r ≡ all3 (λ f. matches f r) (filters_list fs)
unfolding all_match
all_match_lem no_filters r = refl
all_match_lem (filter_and f fs) r = ap (λ b. and3 (matches f r) b) (all_match_lem fs r)

any_match_lem :
    (fs : Filters) (r : Option ℕ) → any_match fs r ≡ any3 (λ f. matches f r) (filters_list fs)
unfolding any_match
any_match_lem no_filters r = refl
any_match_lem (filter_and f fs) r = ap (λ b. or3 (matches f r) b) (any_match_lem fs r)

bound_of_row :
    (d : String) (o : BoundOrdering) (b : Bound) (v : Value) (r : Option ℕ) (x : ℕ)
    → r ≡ some x
    → matches (bound d o b v) r ≡ of_bool (within b (order_number o x v))
unfolding matches
bound_of_row d o b v r x h = rw h refl

numbers-IsDruid : IsDruid numbers matches
unfolding matches
numbers-IsDruid = record {
  conjunction_lem = all_match_lem;
  disjunction_lem = any_match_lem;
  negation_lem = λ f r. refl;
  selector_lem = λ d v r. refl;
  column_comparison_lem = λ d e r. refl;
  search_lem = λ d t r. refl;
  one_of_lem = λ d vs r. refl;
  bound_lem = λ d o b v r x h. bound_of_row d o b v r x h;
}

abbrev age : Expression
age = node 1 (
    name (record {
      identifier = "Age";
      context = load;
      path = "query";
      source_annotation = source none;
    }))

abbrev five : Expression
five = node 2 (number (int (pos 5)))

-- `Age < 5 and not Age == 5`
abbrev query : Expression
query = node 0 (
    boolean_operation
      (cons (node 3 (binary_comparison age five less_than)) (
        cons (node 4 (unary_operation (node 5 (binary_comparison age five equals)) not_operator))
          nil))
      and_operand)

abbrev no_functions : ℕ → Translation Filter
no_functions i = refused unary_exception

abbrev no_calls : ℕ → Option ℕ → Truth
no_calls i r = no

abbrev value_five : Value
value_five = Filters.number (int (pos 5))

abbrev query_filter : Filter
query_filter = conjunction (
    filter_and
      (conjunction (
        filter_and (negation (selector "Age" none_value))
          (filter_and (bound "Age" Filters.numeric (Filters.upper true) value_five) no_filters)))
      (filter_and (negation (selector "Age" value_five)) no_filters))

query-transform : transform no_functions query ≡ translated (query_filter, query)
unfolding transform
query-transform = refl

-- `not Age == 5 or not Age < 5` of null: the first is unknown, the second holds.
abbrev null_query : Expression
null_query = node 0 (
    boolean_operation
      (cons (node 4 (unary_operation (node 5 (binary_comparison age five equals)) not_operator)) (
        cons (node 6 (unary_operation (node 3 (binary_comparison age five less_than)) not_operator))
          nil))
      or_operand)

abbrev null_filter : Filter
null_filter = disjunction (
    filter_and (negation (selector "Age" value_five)) (
      filter_and
        (negation (
          conjunction (
            filter_and (negation (selector "Age" none_value)) (
              filter_and (bound "Age" Filters.numeric (Filters.upper true) value_five)
                no_filters))))
        no_filters))

null_query-transform : transform no_functions null_query ≡ translated (null_filter, null_query)
unfolding transform
null_query-transform = refl

null_query-holds : holds numbers no_calls none null_query ≡ yes
null_query-holds = refl

transform-holds_example : matches null_filter none ≡ holds numbers no_calls none null_query
transform-holds_example =
    transform-holds numbers matches numbers-IsDruid none no_functions no_calls (λ i f h. cc)
      null_query null_filter null_query null_query-transform refl

number_row : matches query_filter (some 3) ≡ yes
unfolding matches
number_row = refl

-- `Age != 5` of null is unknown, so that the row is not given.
null_row : matches (negation (selector "Age" value_five)) none ≡ unknown
unfolding matches
null_row = refl

get_ast_node_value-again_example :
    (e : Expression) × (get_ast_node_value
        (node 7 (unary_operation (node 8 (number (int (pos 5)))) usub))
      ≡ translated (Filters.number (negate (int (pos 5))), e))
    × (get_ast_node_value e
        ≡ translated (
          Filters.number (int (pos 5)),
          node 7 (unary_operation (node 8 (number (int (pos 5)))) usub),
        ))
get_ast_node_value-again_example = get_ast_node_value-again 7 8 (int (pos 5))

transform_comparison_swap_example :
    filter_of (transform_comparison 0 five age less_than)
    ≡ filter_of (transform_comparison 0 age five less_than)
transform_comparison_swap_example =
    transform_comparison_swap 0 less_than "Age" age five refl refl refl

-- Of a row of 7, `5 < Age` holds, and its filter does not match.
wrong_side : holds numbers no_calls (some 7) (node 0 (binary_comparison five age less_than)) ≡ yes
wrong_side = refl
