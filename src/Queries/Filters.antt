-- ===== src/Queries/Filters.antt =====
-- The values of literals, the filters of Druid, and what is relied on of Druid.
use Prim.Native.Nat.{Ordering}
use trust_and_safety_demo.Base.{String, ◌≡◌, Bool, true, false, Option, none, some, List, [], ◌∷◌}
use trust_and_safety_demo.Ast.Grammar.{NumberValue}
use trust_and_safety_demo.Queries.Truth.{Truth, yes, no, unknown, of_bool, not3, all3, any3}

-- What `get_ast_node_value` gives.
mutual
  pub data Value : Type 0 where
    none_value : Value
    text : String → Value
    number : NumberValue → Value
    truth : Bool → Value
    values : Values → Value

  pub data Values : Type 0 where
    nil : Values
    cons : Value → Values → Values

pub data BoundOrdering : Type 0 where
  numeric lexicographic : BoundOrdering

-- `upper` or `lower`, and whether it is strict.
pub data Bound : Type 0 where
  upper lower : Bool → Bound

-- The filters: that of a function is what its `to_druid_query` gives.
mutual
  pub data Filter : Type 0 where
    conjunction disjunction : Filters → Filter
    negation : Filter → Filter
    selector : String → Value → Filter
    column_comparison : String → String → Filter
    search : String → String → Filter
    one_of : String → Values → Filter
    bound : String → BoundOrdering → Bound → Value → Filter
    of_function : String → Filter

  pub data Filters : Type 0 where
    no_filters : Filters
    filter_and : Filter → Filters → Filters

abbrev pub values_list : Values → List Value
values_list nil = []
values_list (cons v vs) = v ∷ values_list vs

abbrev pub filters_list : Filters → List Filter
filters_list no_filters = []
filters_list (filter_and f fs) = f ∷ filters_list fs

abbrev pub within : Bound → Ordering → Bool
within (upper true) Ordering.lt = true
within (upper false) Ordering.lt = true
within (upper false) Ordering.eq = true
within (lower true) Ordering.gt = true
within (lower false) Ordering.gt = true
within (lower false) Ordering.eq = true
within _ _ = false

-- The cells of rows: a missing one is null.
pub record Cells : Type 1 where
  pub Row : Type 0
  pub Cell : Type 0
  pub cell : Row → String → Option Cell
  pub equal : Cell → Value → Bool
  pub same : Option Cell → Option Cell → Truth
  pub includes : Cell → String → Bool
  pub part_of : Cell → String → Bool
  pub order : BoundOrdering → Cell → Value → Ordering

module _ (c : Cells) where
  open c use {Row, Cell, cell, equal, same, includes, order}

  -- Whether a cell is a value: null is `None`, and whether it is another value is unknown.
  abbrev pub is_value : Option Cell → Value → Truth
  is_value none none_value = yes
  is_value none v = unknown
  is_value (some x) none_value = no
  is_value (some x) v = of_bool (equal x v)

  abbrev pub includes_text : Option Cell → String → Truth
  includes_text none t = unknown
  includes_text (some x) t = of_bool (includes x t)

  -- What Druid says of its filters, which are in three-valued logic: a row is given if its filter is
  -- `yes`. A bound of a null cell is left open, and so is what `same` makes of null.
  pub record IsDruid (matches : Filter → Row → Truth) : Type 0 where
    pub conjunction_lem :
        (fs : Filters) (r : Row)
        → matches (conjunction fs) r ≡ all3 (λ f. matches f r) (filters_list fs)
    pub disjunction_lem :
        (fs : Filters) (r : Row)
        → matches (disjunction fs) r ≡ any3 (λ f. matches f r) (filters_list fs)
    pub negation_lem : (f : Filter) (r : Row) → matches (negation f) r ≡ not3 (matches f r)
    pub selector_lem :
        (d : String) (v : Value) (r : Row) → matches (selector d v) r ≡ is_value (cell r d) v
    pub column_comparison_lem :
        (d e : String) (r : Row) → matches (column_comparison d e) r ≡ same (cell r d) (cell r e)
    pub search_lem : (d t : String) (r : Row) → matches (search d t) r ≡ includes_text (cell r d) t
    pub one_of_lem :
        (d : String) (vs : Values) (r : Row)
        → matches (one_of d vs) r ≡ any3 (λ v. is_value (cell r d) v) (values_list vs)
    pub bound_lem :
        (d : String) (o : BoundOrdering) (b : Bound) (v : Value) (r : Row) (x : Cell)
        → cell r d ≡ some x
        → matches (bound d o b v) r ≡ of_bool (within b (order o x v))
