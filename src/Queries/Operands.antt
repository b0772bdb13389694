-- ===== src/Queries/Operands.antt =====
-- Operands on the wrong side, and operands that a translation changes.
use trust_and_safety_demo.Base.{
  ℕ, zero, suc, String, ◌≡◌, refl, sym, ap, ◌∙◌, true, false, none, some, pos, negsuc,
}
use trust_and_safety_demo.Execution.Values.{Comparator}
use trust_and_safety_demo.Ast.Grammar.{
  NumberValue, int, float, negate, usub, Expression, node, number, unary_operation,
  binary_comparison,
}
use trust_and_safety_demo.Queries.Filters.{Value, Filter}
use trust_and_safety_demo.Queries.Filters
use trust_and_safety_demo.Queries.Transforming.{
  Translation, translated, refused, ◌>>=◌, execute_unary, get_ast_node_value, column, has_value,
  get_comparison_dimension, compare_value, transform_with_value, transform_comparison,
}
use trust_and_safety_demo.Queries.Agreeing.{left_column, right_column}

-- The filter that a translation gives.
abbrev pub filter_of : Translation (Filter × Expression) → Translation Filter
filter_of r = r >>= λ (f, e). translated f

negate-negate : (n : NumberValue) → negate (negate n) ≡ n
unfolding negate
negate-negate (int (pos zero)) = refl
negate-negate (int (pos (suc n))) = refl
negate-negate (int (negsuc n)) = refl
negate-negate (float true m) = refl
negate-negate (float false m) = refl

-- `-n` is read as the negation of `n`, and the node that this leaves, read again, gives `n`: the
-- sign of a literal changes with each reading.
pub get_ast_node_value-again :
    (id i : ℕ) (n : NumberValue)
    → (e : Expression) × (get_ast_node_value (node id (unary_operation (node i (number n)) usub))
        ≡ translated (Filters.number (negate n), e))
      × (get_ast_node_value e
          ≡ translated (Filters.number n, node id (unary_operation (node i (number n)) usub)))
unfolding get_ast_node_value execute_unary
get_ast_node_value-again id i n =
    (node id (unary_operation (node i (number (negate n))) usub), refl, rw (negate-negate n) refl)

drop_tree :
    (m : Translation Filter) (g : Filter → Expression)
    → filter_of (m >>= λ f. translated (f, g f)) ≡ m
drop_tree (translated f) g = refl
drop_tree (refused e) g = refl

module _ (id : ℕ) (c : Comparator) (d : String) (column_side value_side : Expression) where
  -- The filter of a comparison of a column with what is read on the other side.
  abbrev compared : Translation (Value × Expression) → Translation Filter
  compared m = m >>= λ (v, e). compare_value c d v

  from_left :
      (m : Translation (Value × Expression))
      → filter_of (
          (m >>= λ (v, e). translated (v, column_side, e)) >>= λ (v, left', right').
          compare_value c d v >>= λ f. translated (f, node id (binary_comparison left' right' c)))
        ≡ compared m
  from_left (translated (v, e)) =
      drop_tree (compare_value c d v) (λ f. node id (binary_comparison column_side e c))
  from_left (refused e) = refl

  from_right :
      (m : Translation (Value × Expression))
      → filter_of (
          (m >>= λ (v, e). translated (v, e, column_side)) >>= λ (v, left', right').
          compare_value c d v >>= λ f. translated (f, node id (binary_comparison left' right' c)))
        ≡ compared m
  from_right (translated (v, e)) =
      drop_tree (compare_value c d v) (λ f. node id (binary_comparison e column_side c))
  from_right (refused e) = refl

  module _ (is_column : column column_side ≡ some d) (no_column : column value_side ≡ none)
      (literal : has_value value_side ≡ true) where
    column_left :
        filter_of (transform_comparison id column_side value_side c)
        ≡ compared (get_ast_node_value value_side)
    unfolding transform_comparison transform_with_value
    column_left =
        let (dimension, read) = left_column column_side value_side d is_column literal in
        let step : transform_comparison id column_side value_side c
            ≡ transform_with_value id column_side value_side c =
          rw (is_column, no_column, transform_comparison) refl in
        ap filter_of step
        ∙ rw (dimension, read, transform_with_value) (from_left (get_ast_node_value value_side))

    column_right :
        filter_of (transform_comparison id value_side column_side c)
        ≡ compared (get_ast_node_value value_side)
    unfolding transform_comparison transform_with_value get_comparison_dimension
    column_right =
        let dimension : get_comparison_dimension value_side column_side ≡ translated d =
          rw (no_column, is_column, get_comparison_dimension) refl in
        let read = right_column value_side column_side no_column literal in
        let step : transform_comparison id value_side column_side c
            ≡ transform_with_value id value_side column_side c =
          rw (no_column, transform_comparison) refl in
        ap filter_of step
        ∙ rw (dimension, read, transform_with_value) (from_right (get_ast_node_value value_side))

    -- A comparison of a column with a literal has the filter of the comparison with its sides swapped:
    -- that of `5 < X` is the filter of `X < 5`.
    pub transform_comparison_swap :
        filter_of (transform_comparison id value_side column_side c)
        ≡ filter_of (transform_comparison id column_side value_side c)
    transform_comparison_swap = column_right ∙ sym column_left
