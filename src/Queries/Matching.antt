-- ===== src/Queries/Matching.antt =====
-- The filter of a query matches the rows of which the query holds.
use Prim.Native.Nat.{Ordering}
use trust_and_safety_demo.Base.{
  String, ◌≡◌, refl, ap, ◌∙◌, true, false, Option, inl, inr, Option-cases,
}
use trust_and_safety_demo.Execution.Values.{
  Comparator, equals, not_equals, less_than, less_than_equals, greater_than, greater_than_equals,
  is_in, not_in,
}
use trust_and_safety_demo.Ast.Grammar.{
  negate, not_operator, usub, and_operand, or_operand, Expression, node, name, string, boolean,
  none_literal, list, call, binary_operation, unary_operation, binary_comparison, boolean_operation,
  attribute, format_string, Expressions, BooleanOperand,
}
use trust_and_safety_demo.Ast.Grammar
use trust_and_safety_demo.Queries.Filters.{
  Value, none_value, text, number, truth, values, Values, values_list, BoundOrdering, Bound, upper,
  lower, within, bound, conjunction, negation, selector, column_comparison, search, one_of,
  no_filters, filter_and, Filter, Cells, is_value, includes_text, IsDruid,
}
use trust_and_safety_demo.Queries.Truth.{Truth, no, of_bool, not3, any3, and3_yes}
use trust_and_safety_demo.Queries.Transforming.{
  Translation, translated, refused, ◌>>=◌, execute_unary, get_ast_node_value, get_items,
  get_in_query_by_value_type, get_value_bound_ordering, get_druid_bound_query_props,
  compare_columns, compare_value,
}
use trust_and_safety_demo.Queries.Meaning.{
  literal, literals, reads_from_left, compare_from_right, ordering_of, is_ordered, reads_from_right,
  is_ordered_cell, compare_cell, compare_cells,
}

-- Inversion of a step that succeeds.
pub >>=-eq-translated :
    {A B : Type 0} (m : Translation A) (f : A → Translation B) {b : B}
    → (m >>= f) ≡ translated b
    → (a : A) × (m ≡ translated a) × (f a ≡ translated b)
>>=-eq-translated (translated a) f h = (a, refl, h)
>>=-eq-translated (refused e) f h = cc

-- What is read of a literal is its value, whatever becomes of the node.
mutual
  unfolding get_ast_node_value get_items execute_unary

  pub value_lem :
      (e : Expression) (v : Value) (e' : Expression)
      → get_ast_node_value e ≡ translated (v, e')
      → v ≡ literal e
  value_lem (node id (string s)) v e' h = cc
  value_lem (node id (Grammar.number n)) v e' h = cc
  value_lem (node id (boolean b)) v e' h = cc
  value_lem (node id none_literal) v e' h = cc
  value_lem (node id (list items)) v e' h =
      let ((vs, es), run, e) = >>=-eq-translated (get_items items) _ h in
      let same = items_lem items vs es run in cc (e, ap values same)
  value_lem (node id (unary_operation (node i (Grammar.number n)) usub)) v e' h = cc
  value_lem (node id _) v e' h = cc

  items_lem :
      (es : Expressions) (vs : Values) (es' : Expressions)
      → get_items es ≡ translated (vs, es')
      → vs ≡ literals es
  items_lem Expressions.nil vs es' h = cc
  items_lem (Expressions.cons e es) vs es' h =
      let ((v, e'), first, rest) = >>=-eq-translated (get_ast_node_value e) _ h in
      let ((ws, fs), others, last) = >>=-eq-translated (get_items es) _ rest in
      let same = value_lem e v e' first in
      let same_rest = items_lem es ws fs others in cc (last, same, same_rest)

ordering_lem :
    (v : Value) (o : BoundOrdering) → get_value_bound_ordering v ≡ translated o → o ≡ ordering_of v
unfolding get_value_bound_ordering
ordering_lem none_value o h = cc
ordering_lem (text t) o h = cc
ordering_lem (number n) o h = cc
ordering_lem (truth b) o h = cc
ordering_lem (values vs) o h = cc

below : (o : Ordering) → within (upper true) o ≡ is_ordered less_than o
below Ordering.lt = refl
below Ordering.eq = refl
below Ordering.gt = refl

at_most : (o : Ordering) → within (upper false) o ≡ is_ordered less_than_equals o
at_most Ordering.lt = refl
at_most Ordering.eq = refl
at_most Ordering.gt = refl

above : (o : Ordering) → within (lower true) o ≡ is_ordered greater_than o
above Ordering.lt = refl
above Ordering.eq = refl
above Ordering.gt = refl

at_least : (o : Ordering) → within (lower false) o ≡ is_ordered greater_than_equals o
at_least Ordering.lt = refl
at_least Ordering.eq = refl
at_least Ordering.gt = refl

-- The bound of a comparison takes just the orders that the comparison takes.
props_lem :
    (c : Comparator) (b : Bound)
    → get_druid_bound_query_props c ≡ translated b
    → (o : Ordering) → within b o ≡ is_ordered c o
unfolding get_druid_bound_query_props
props_lem less_than b h o = let e : upper true ≡ b = cc in rw (← e) (below o)
props_lem less_than_equals b h o = let e : upper false ≡ b = cc in rw (← e) (at_most o)
props_lem greater_than b h o = let e : lower true ≡ b = cc in rw (← e) (above o)
props_lem greater_than_equals b h o = let e : lower false ≡ b = cc in rw (← e) (at_least o)
props_lem _ b h o = cc

module _ (k : Cells) (matches : Filter → Cells.Row k → Truth) (druid : IsDruid k matches)
    (r : Cells.Row k) where
  open k use {Cell, cell, order, same}

  ordered_lem :
      (c : Comparator) (d : String) (o : BoundOrdering) (b : Bound) (v : Value)
      → get_value_bound_ordering v ≡ translated o
      → get_druid_bound_query_props c ≡ translated b
      → matches
          (conjunction
            (filter_and (negation (selector d none_value)) (filter_and (bound d o b v) no_filters)))
          r
        ≡ is_ordered_cell k c (cell r d) v
  ordered_lem c d o b v h p = druid.conjunction_lem _ r ∙ elim (Option-cases (cell r d)) [
    | inl null ↦ rw (druid.negation_lem _ r, druid.selector_lem d none_value r, null) refl
    | inr (x, found) ↦
        rw
          (
            druid.negation_lem (selector d none_value) r,
            druid.selector_lem d none_value r,
            found,
            druid.bound_lem d o b v r x found,
          )
          (and3_yes (of_bool (within b (order o x v)))
            ∙ (ap of_bool (props_lem c b p (order o x v))
                ∙ ap (λ q. of_bool (is_ordered c (order q x v))) (ordering_lem v o h)))
  ]

  -- The steps of `compare_value` for a comparator that orders.
  bound_lem :
      (c : Comparator) (d : String) (v : Value) (f : Filter)
      → (get_value_bound_ordering v >>= λ o. get_druid_bound_query_props c >>= λ b. translated (
          conjunction (
            filter_and (negation (selector d none_value)) (filter_and (bound d o b v) no_filters))))
        ≡ translated f
      → matches f r ≡ is_ordered_cell k c (cell r d) v
  bound_lem c d v f h =
      let (o, ordering, rest) = >>=-eq-translated (get_value_bound_ordering v) _ h in
      let (b, props, last) = >>=-eq-translated (get_druid_bound_query_props c) _ rest in
      let e : conjunction
            (filter_and (negation (selector d none_value)) (filter_and (bound d o b v) no_filters))
          ≡ f =
        cc in
      rw (← e) (ordered_lem c d o b v ordering props)

  -- What the filter of `in` and of `not in` looks for.
  abbrev pub looks_for : Option Cell → Value → Truth
  looks_for x (text t) = includes_text k x t
  looks_for x (values vs) = any3 (λ v. is_value k x v) (values_list vs)
  looks_for x v = no

  -- What the filter of a comparison matches, whichever side the column is on.
  abbrev pub matches_cell : Comparator → Option Cell → Value → Truth
  matches_cell is_in x v = looks_for x v
  matches_cell not_in x v = not3 (looks_for x v)
  matches_cell c x v = compare_cell k c x v

  in_lem :
      (d : String) (v : Value) (f : Filter)
      → get_in_query_by_value_type d v ≡ translated f
      → matches f r ≡ looks_for (cell r d) v
  unfolding get_in_query_by_value_type
  in_lem d (text t) f h = let e : search d t ≡ f = cc in rw (← e) (druid.search_lem d t r)
  in_lem d (values vs) f h = let e : one_of d vs ≡ f = cc in rw (← e) (druid.one_of_lem d vs r)
  in_lem d _ f h = cc

  pub compare_value_lem :
      (c : Comparator) (d : String) (v : Value) (f : Filter)
      → compare_value c d v ≡ translated f
      → matches f r ≡ matches_cell c (cell r d) v
  unfolding compare_value
  compare_value_lem equals d v f h =
      let e : selector d v ≡ f = cc in rw (← e) (druid.selector_lem d v r)
  compare_value_lem not_equals d v f h =
      let e : negation (selector d v) ≡ f = cc in
      rw (← e) (druid.negation_lem (selector d v) r ∙ ap not3 (druid.selector_lem d v r))
  compare_value_lem is_in d v f h = in_lem d v f h
  compare_value_lem not_in d v f h =
      let (g, inner, last) = >>=-eq-translated (get_in_query_by_value_type d v) _ h in
      let e : negation g ≡ f = cc in
      rw (← e) (druid.negation_lem g r ∙ ap not3 (in_lem d v g inner))
  compare_value_lem less_than d v f h = bound_lem less_than d v f h
  compare_value_lem less_than_equals d v f h = bound_lem less_than_equals d v f h
  compare_value_lem greater_than d v f h = bound_lem greater_than d v f h
  compare_value_lem greater_than_equals d v f h = bound_lem greater_than_equals d v f h

  pub compare_columns_lem :
      (c : Comparator) (d e : String) (f : Filter)
      → compare_columns c d e ≡ translated f
      → matches f r ≡ compare_cells k c (cell r d) (cell r e)
  unfolding compare_columns
  compare_columns_lem equals d e f h =
      let same_filter : column_comparison d e ≡ f = cc in
      rw (← same_filter) (druid.column_comparison_lem d e r)
  compare_columns_lem not_equals d e f h =
      let same_filter : negation (column_comparison d e) ≡ f = cc in
      rw (← same_filter)
        (druid.negation_lem (column_comparison d e) r ∙ ap not3 (druid.column_comparison_lem d e r))
  compare_columns_lem _ d e f h = cc

  -- The filter matches what the comparison means, where it is readable.
  pub left_lem :
      (c : Comparator) (d : String) (v : Value) (f : Filter)
      → compare_value c d v ≡ translated f
      → reads_from_left c v ≡ true
      → matches f r ≡ compare_cell k c (cell r d) v
  unfolding compare_value get_in_query_by_value_type
  left_lem is_in d (text t) f h s = cc
  left_lem is_in d (values vs) f h s = compare_value_lem is_in d (values vs) f h
  left_lem is_in d _ f h s = cc
  left_lem not_in d (text t) f h s = cc
  left_lem not_in d (values vs) f h s = compare_value_lem not_in d (values vs) f h
  left_lem not_in d _ f h s = cc
  left_lem equals d v f h s = compare_value_lem equals d v f h
  left_lem not_equals d v f h s = compare_value_lem not_equals d v f h
  left_lem less_than d v f h s = compare_value_lem less_than d v f h
  left_lem less_than_equals d v f h s = compare_value_lem less_than_equals d v f h
  left_lem greater_than d v f h s = compare_value_lem greater_than d v f h
  left_lem greater_than_equals d v f h s = compare_value_lem greater_than_equals d v f h

  pub right_lem :
      (c : Comparator) (d : String) (v : Value) (f : Filter)
      → compare_value c d v ≡ translated f
      → reads_from_right c v ≡ true
      → matches f r ≡ compare_from_right k c (cell r d) v
  right_lem is_in d (text t) f h s = compare_value_lem is_in d (text t) f h
  right_lem is_in d _ f h s = cc
  right_lem not_in d (text t) f h s = compare_value_lem not_in d (text t) f h
  right_lem not_in d _ f h s = cc
  right_lem equals d v f h s = compare_value_lem equals d v f h
  right_lem not_equals d v f h s = compare_value_lem not_equals d v f h
  right_lem _ d v f h s = cc
