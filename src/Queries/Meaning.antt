-- ===== src/Queries/Meaning.antt =====
-- What a query means for a row in three-valued logic, without regard to the filters.
use Prim.Native.Nat.{Ordering}
use trust_and_safety_demo.Base.{ℕ, String, Bool, true, false, ◌&&◌, Option, none, some}
use trust_and_safety_demo.Execution.Values.{
  Comparator, equals, not_equals, less_than, less_than_equals, greater_than, greater_than_equals,
  is_in, not_in,
}
use trust_and_safety_demo.Ast.Grammar.{
  negate, not_operator, usub, and_operand, or_operand, Expression, node, string, boolean, list,
  call, unary_operation, binary_comparison, boolean_operation, Expressions,
}
use trust_and_safety_demo.Ast.Grammar
use trust_and_safety_demo.Queries.Filters.{
  Value, none_value, text, number, truth, values, Values, nil, cons, values_list, BoundOrdering,
  numeric, lexicographic, Cells, is_value, includes_text,
}
use trust_and_safety_demo.Queries.Truth.{Truth, yes, no, unknown, of_bool, not3, and3, or3, any3}
use trust_and_safety_demo.Queries.Transforming.{column, has_value}

-- The value that a literal stands for.
abbrev mutual
  pub literal : Expression → Value
  literal (node id (string s)) = text s
  literal (node id (Grammar.number n)) = number n
  literal (node id (boolean b)) = truth b
  literal (node id (list items)) = values (literals items)
  literal (node id (unary_operation (node i (Grammar.number n)) usub)) = number (negate n)
  literal (node id _) = none_value

  pub literals : Expressions → Values
  literals Expressions.nil = nil
  literals (Expressions.cons e es) = cons (literal e) (literals es)

-- Texts are ordered as such, and all else by number.
abbrev pub ordering_of : Value → BoundOrdering
ordering_of (text t) = lexicographic
ordering_of v = numeric

abbrev pub is_ordered : Comparator → Ordering → Bool
is_ordered less_than Ordering.lt = true
is_ordered less_than_equals Ordering.lt = true
is_ordered less_than_equals Ordering.eq = true
is_ordered greater_than Ordering.gt = true
is_ordered greater_than_equals Ordering.gt = true
is_ordered greater_than_equals Ordering.eq = true
is_ordered c o = false

-- With the column on the right: what reads the same from both sides, and a text in a column.
abbrev pub reads_from_right : Comparator → Value → Bool
reads_from_right equals v = true
reads_from_right not_equals v = true
reads_from_right is_in (text t) = true
reads_from_right not_in (text t) = true
reads_from_right c v = false

-- With the column on the left: all but a column in a text.
abbrev pub reads_from_left : Comparator → Value → Bool
reads_from_left is_in (text t) = false
reads_from_left not_in (text t) = false
reads_from_left c v = true

abbrev pub is_readable_comparison : Comparator → Expression → Expression → Bool
is_readable_comparison c left right = elim (column left) [
  | some d ↦ elim (column right) [
    | some e ↦ true
    | none ↦ has_value right && reads_from_left c (literal right)
  ]
  | none ↦ has_value left && reads_from_right c (literal left)
]

abbrev mutual
  pub is_readable : Expression → Bool
  is_readable (node id (boolean_operation es joiner)) = are_readable es
  is_readable (node id (unary_operation operand operator)) = is_readable operand
  is_readable (node id (binary_comparison left right c)) = is_readable_comparison c left right
  is_readable (node id _) = true

  pub are_readable : Expressions → Bool
  are_readable Expressions.nil = true
  are_readable (Expressions.cons e es) = is_readable e && are_readable es

module _ (k : Cells) where
  open k use {Row, Cell, cell, equal, same, includes, part_of, order}

  abbrev pub is_ordered_cell : Comparator → Option Cell → Value → Truth
  is_ordered_cell c none v = no
  is_ordered_cell c (some x) v = of_bool (is_ordered c (order (ordering_of v) x v))

  abbrev pub part_of_text : Option Cell → String → Truth
  part_of_text none t = unknown
  part_of_text (some x) t = of_bool (part_of x t)

  -- `x in v` of a cell `x`.
  abbrev pub is_in_value : Option Cell → Value → Truth
  is_in_value x (text t) = part_of_text x t
  is_in_value x (values vs) = any3 (λ v. is_value k x v) (values_list vs)
  is_in_value x v = no

  -- `v in x` of a cell `x`.
  abbrev pub value_is_in : Option Cell → Value → Truth
  value_is_in x (text t) = includes_text k x t
  value_is_in x v = no

  -- `x c v` of a cell `x`; null is in no order, and else unknown but for `None`.
  abbrev pub compare_cell : Comparator → Option Cell → Value → Truth
  compare_cell equals x v = is_value k x v
  compare_cell not_equals x v = not3 (is_value k x v)
  compare_cell is_in x v = is_in_value x v
  compare_cell not_in x v = not3 (is_in_value x v)
  compare_cell c x v = is_ordered_cell c x v

  -- `v c x` of a cell `x`.
  abbrev pub compare_from_right : Comparator → Option Cell → Value → Truth
  compare_from_right equals x v = is_value k x v
  compare_from_right not_equals x v = not3 (is_value k x v)
  compare_from_right is_in x v = value_is_in x v
  compare_from_right not_in x v = not3 (value_is_in x v)
  compare_from_right less_than x v = is_ordered_cell greater_than x v
  compare_from_right less_than_equals x v = is_ordered_cell greater_than_equals x v
  compare_from_right greater_than x v = is_ordered_cell less_than x v
  compare_from_right greater_than_equals x v = is_ordered_cell less_than_equals x v

  abbrev pub compare_cells : Comparator → Option Cell → Option Cell → Truth
  compare_cells equals x y = same x y
  compare_cells not_equals x y = not3 (same x y)
  compare_cells c x y = no

  abbrev pub holds_comparison : Row → Comparator → Expression → Expression → Truth
  holds_comparison r c left right = elim (column left) [
    | some d ↦ elim (column right) [
      | some e ↦ compare_cells c (cell r d) (cell r e)
      | none ↦ compare_cell c (cell r d) (literal right)
    ]
    | none ↦ elim (column right) [
      | some e ↦ compare_from_right c (cell r e) (literal left)
      | none ↦ no
    ]
  ]

  -- Whether a query holds of a row, given whether its calls do.
  module _ (call_holds : ℕ → Row → Truth) where
    abbrev mutual
      pub holds : Row → Expression → Truth
      holds r (node id (boolean_operation es and_operand)) = all_hold r es
      holds r (node id (boolean_operation es or_operand)) = some_holds r es
      holds r (node id (unary_operation e not_operator)) = not3 (holds r e)
      holds r (node id (binary_comparison left right c)) = holds_comparison r c left right
      holds r (node id (call func arguments)) = call_holds id r
      holds r (node id _) = no

      pub all_hold : Row → Expressions → Truth
      all_hold r Expressions.nil = yes
      all_hold r (Expressions.cons e es) = and3 (holds r e) (all_hold r es)

      pub some_holds : Row → Expressions → Truth
      some_holds r Expressions.nil = no
      some_holds r (Expressions.cons e es) = or3 (holds r e) (some_holds r es)
