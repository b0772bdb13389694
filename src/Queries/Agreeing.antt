-- ===== src/Queries/Agreeing.antt =====
-- The filter of a query matches the rows of which the query holds.
use trust_and_safety_demo.Base.{
  ℕ, String, ◌≡◌, refl, sym, ap, ◌∙◌, true, false, &&-true, none, some, inl, inr, Option-cases,
  arith,
}
use trust_and_safety_demo.Execution.Values.{Comparator}
use trust_and_safety_demo.Ast.Grammar.{
  not_operator, usub, and_operand, or_operand, Expression, node, name, call, unary_operation,
  binary_comparison, boolean_operation, Expressions, nil, cons,
}
use trust_and_safety_demo.Queries.Filters.{
  Value, Filter, conjunction, disjunction, negation, Filters, filters_list, no_filters, filter_and,
  Cells, IsDruid,
}
use trust_and_safety_demo.Queries.Truth.{Truth, not3, all3, any3}
use trust_and_safety_demo.Queries.Transforming.{
  Translation, translated, ◌>>=◌, get_ast_node_value, column, has_value, get_comparison_dimension,
  get_comparison_value, compare_columns, compare_value, transform_with_value, transform_comparison,
  transform, transform_all,
}
use trust_and_safety_demo.Queries.Meaning.{
  literal, is_readable_comparison, is_readable, are_readable, holds_comparison, holds, all_hold,
  some_holds,
}
use trust_and_safety_demo.Queries.Matching.{
  >>=-eq-translated, value_lem, left_lem, right_lem, compare_columns_lem,
}

names_have_no_value : (e : Expression) (d : String) → column e ≡ some d → has_value e ≡ false
names_have_no_value (node id (name n)) d h = refl
names_have_no_value (node id _) d h = cc

-- The dimension and the value of a comparison with its column on the left, and on the right.
pub left_column :
    (left right : Expression) (d : String)
    → column left ≡ some d
    → has_value right ≡ true
    → (get_comparison_dimension left right ≡ translated d)
      × (get_comparison_value left right
          ≡ (get_ast_node_value right >>= λ (v, e). translated (v, left, e)))
unfolding get_comparison_dimension get_comparison_value
left_column left right d h k = (
  rw (h, get_comparison_dimension) refl,
  rw (names_have_no_value left d h, k, get_comparison_value) refl,
)

pub right_column :
    (left right : Expression)
    → column left ≡ none
    → has_value left ≡ true
    → get_comparison_value left right
      ≡ (get_ast_node_value left >>= λ (v, e). translated (v, e, right))
unfolding get_comparison_value
right_column left right h k = rw (k, get_comparison_value) refl

dimension_right :
    (left right : Expression) (d : String)
    → column left ≡ none
    → get_comparison_dimension left right ≡ translated d
    → column right ≡ some d
unfolding get_comparison_dimension
dimension_right left right d h k = elim (Option-cases (column right)) [
  | inl missing ↦ absurd (ground (arith, h, missing, k))
  | inr (e, found) ↦ let same : e ≡ d = ground (arith, h, found, k) in rw found (ap some same)
]

module _ (k : Cells) (matches : Filter → Cells.Row k → Truth) (druid : IsDruid k matches)
    (r : Cells.Row k) where
  open k use {cell}

  -- The parts of a comparison with a value.
  value_parts :
      (id : ℕ) (left right : Expression) (c : Comparator) (f : Filter) (e : Expression)
      → transform_with_value id left right c ≡ translated (f, e)
      → (d : String) × (v : Value) × (left' : Expression) × (right' : Expression)
        × (get_comparison_dimension left right ≡ translated d)
        × (get_comparison_value left right ≡ translated (v, left', right'))
        × (compare_value c d v ≡ translated f)
  unfolding transform_with_value
  value_parts id left right c f e h =
      let (d, dimension, rest) = >>=-eq-translated (get_comparison_dimension left right) _ h in
      let ((v, left', right'), found, more) =
        >>=-eq-translated (get_comparison_value left right) _ rest in
      let (g, compared, last) = >>=-eq-translated (compare_value c d v) _ more in
      let same : g ≡ f = cc in
      (d, v, left', right', dimension, found, rw compared (ap translated same))

  comparison_lem :
      (id : ℕ) (left right : Expression) (c : Comparator) (f : Filter) (e : Expression)
      → transform_comparison id left right c ≡ translated (f, e)
      → is_readable_comparison c left right ≡ true
      → matches f r ≡ holds_comparison k r c left right
  unfolding transform_comparison
  comparison_lem id left right c f e h s = elim (Option-cases (column left)) [
    | inl no_left ↦
        let run : transform_with_value id left right c ≡ translated (f, e) =
          rw (no_left, transform_comparison) at h in
        let (d, v, left', right', dimension, read, compared) =
          value_parts id left right c f e run in
        let found = dimension_right left right d no_left dimension in
        let (literal_left, reads) =
          &&-true (has_value left) _ (rw (no_left, is_readable_comparison) at s) in
        let ((w, left''), taken, last) =
          >>=-eq-translated (get_ast_node_value left) _
            (sym (right_column left right no_left literal_left) ∙ read) in
        let same : w ≡ v = cc in
        let meant : literal left ≡ v = sym (value_lem left w left'' taken) ∙ same in
        rw (no_left, found, holds_comparison, meant)
          (right_lem k matches druid r c d v f compared (rw meant at reads))
    | inr (d, found) ↦ elim (Option-cases (column right)) [
      | inr (d', found') ↦
          let run = rw (found, found', transform_comparison) at h in
          let (g, compared, last) = >>=-eq-translated (compare_columns c d d') _ run in
          let same : g ≡ f = cc in
          rw (found, found', holds_comparison)
            (compare_columns_lem k matches druid r c d d' f (rw compared (ap translated same)))
      | inl no_right ↦
          let run : transform_with_value id left right c ≡ translated (f, e) =
            rw (found, no_right, transform_comparison) at h in
          let (d', v, left', right', dimension, read, compared) =
            value_parts id left right c f e run in
          let (literal_right, reads) =
            &&-true (has_value right) _ (rw (found, no_right, is_readable_comparison) at s) in
          let (dimension', read') = left_column left right d found literal_right in
          let ((w, right''), taken, last) =
            >>=-eq-translated (get_ast_node_value right) _ (sym read' ∙ read) in
          let same : w ≡ v = cc in
          let same_column : d' ≡ d = cc in
          let meant : literal right ≡ v = sym (value_lem right w right'' taken) ∙ same in
          let compared' : compare_value c d v ≡ translated f = rw same_column at compared in
          rw (found, no_right, holds_comparison, meant)
            (left_lem k matches druid r c d v f compared' (rw meant at reads))
    ]
  ]

  module _ (to_druid_query : ℕ → Translation Filter) (call_holds : ℕ → Cells.Row k → Truth)
      (calls : (i : ℕ) (f : Filter)
        → to_druid_query i ≡ translated f
        → matches f r ≡ call_holds i r) where
    mutual
      unfolding transform transform_all

      transforms :
          (q : Expression) (f : Filter) (q' : Expression)
          → transform to_druid_query q ≡ translated (f, q')
          → is_readable q ≡ true
          → matches f r ≡ holds k call_holds r q
      transforms (node id (boolean_operation es and_operand)) f q' h s =
          let ((fs, es'), run, last) = >>=-eq-translated (transform_all to_druid_query es) _ h in
          let same : conjunction fs ≡ f = cc in
          rw (← same) (druid.conjunction_lem fs r ∙ (transforms_all es fs es' run s).0)
      transforms (node id (boolean_operation es or_operand)) f q' h s =
          let ((fs, es'), run, last) = >>=-eq-translated (transform_all to_druid_query es) _ h in
          let same : disjunction fs ≡ f = cc in
          rw (← same) (druid.disjunction_lem fs r ∙ (transforms_all es fs es' run s).1)
      transforms (node id (binary_comparison left right c)) f q' h s =
          comparison_lem id left right c f q' h s
      transforms (node id (unary_operation e not_operator)) f q' h s =
          let ((g, e'), run, last) = >>=-eq-translated (transform to_druid_query e) _ h in
          let same : negation g ≡ f = cc in
          rw (← same) (druid.negation_lem g r ∙ ap not3 (transforms e g e' run s))
      transforms (node id (unary_operation e usub)) f q' h s = cc
      transforms (node id (call func arguments)) f q' h s =
          let (g, run, last) = >>=-eq-translated (to_druid_query id) _ h in
          let same : g ≡ f = cc in calls id f (run ∙ ap translated same)
      transforms (node id _) f q' h s = cc

      transforms_all :
          (es : Expressions) (fs : Filters) (es' : Expressions)
          → transform_all to_druid_query es ≡ translated (fs, es')
          → are_readable es ≡ true
          → (all3 (λ f. matches f r) (filters_list fs) ≡ all_hold k call_holds r es)
            × (any3 (λ f. matches f r) (filters_list fs) ≡ some_holds k call_holds r es)
      transforms_all nil fs es' h s = let same : no_filters ≡ fs = cc in rw (← same) (refl, refl)
      transforms_all (cons e es) fs es' h s =
          let ((f, e'), first, rest) = >>=-eq-translated (transform to_druid_query e) _ h in
          let ((gs, es''), others, last) =
            >>=-eq-translated (transform_all to_druid_query es) _ rest in
          let (s0, s1) = &&-true (is_readable e) (are_readable es) s in
          let same : filter_and f gs ≡ fs = cc in
          let head = transforms e f e' first s0 in
          let tail = transforms_all es gs es'' others s1 in
          rw (← same, head, tail.0, tail.1) (refl, refl)

    -- When a query is translated, its filter gives for a row just what the query says of the row, in
    -- the three-valued logic of Druid and for calls whose filters give what the calls say: `not`,
    -- `and` and `or` are those of the query, null is in no order, and whether it is or contains a
    -- value is unknown, but that it is `None`. Each comparison of a column with a value must have
    -- a literal there, and have the column on the left and be no search in a text, or be one of
    -- `==`, `!=` and a search for a text in the column.
    pub transform-holds :
        (q : Expression) (f : Filter) (q' : Expression)
        → transform to_druid_query q ≡ translated (f, q')
        → is_readable q ≡ true
        → matches f r ≡ holds k call_holds r q
    transform-holds q f q' h s = transforms q f q' h s
