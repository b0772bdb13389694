-- ===== src/Graph/Examples.antt =====
-- A graph of two sources, and witnesses of the theorems.
use trust_and_safety_demo.Base.{
  ◌≡◌, refl, none, some, List, [], ◌∷◌, String, ok, err, key_error, All, string_eq, nat_eq,
}
use trust_and_safety_demo.Base.Dict.{get, put}
use trust_and_safety_demo.Graph.Defs.{
  load, other, no_nodes, ◌&◌, DependencyChain, Source, ExecutionGraph, no_graph, chain_id,
  compile_execution_graph, topologically_sort,
}
use trust_and_safety_demo.Graph.Sorting.{IsInOrder, HasChain, ids, topologically_sort-IsInOrder}
use trust_and_safety_demo.Graph.Compiling.{IsPlan}
use trust_and_safety_demo.Graph.Planning.{compile_execution_graph-IsPlan}

-- `A = 1`, `B = A + 2`, and `Import(rules=['extra'])`.
abbrev pub main_source : Source
main_source = record {
  path = "main";
  statements =
      (record { node = 10; target = some "A"; dependents = other 1 no_nodes & no_nodes })
      ∷ (record {
        node = 11;
        target = some "B";
        dependents = load "A" & other 2 no_nodes & no_nodes;
      })
      ∷ (record { node = 12; target = none; dependents = no_nodes })
      ∷ [];
}

-- `C = B < A`
abbrev pub extra_source : Source
extra_source = record {
  path = "extra";
  statements =
      (record { node = 20; target = some "C"; dependents = load "B" & load "A" & no_nodes }) ∷ [];
}

abbrev pub sorted_sources : List Source
sorted_sources = main_source ∷ []

abbrev pub all_sources : List Source
all_sources = extra_source ∷ main_source ∷ []

unfoldable pub two_sources : ExecutionGraph
unfolding compile_execution_graph
two_sources = elim (compile_execution_graph sorted_sources all_sources) [
  | ok g ↦ g
  | err e ↦ no_graph
]

pub two_sources-compiled : compile_execution_graph sorted_sources all_sources ≡ ok two_sources
unfolding compile_execution_graph two_sources get put
two_sources-compiled = refl

-- A source's chains, in their order.
unfoldable extra_chains : List DependencyChain
unfolding topologically_sort two_sources
extra_chains = elim (topologically_sort two_sources extra_source) [ ok cs ↦ cs | err e ↦ [] ]

extra_chains-sorted : topologically_sort two_sources extra_source ≡ ok extra_chains
unfolding topologically_sort two_sources extra_chains get put
extra_chains-sorted = refl

extra_order : ids extra_chains ≡ 0 ∷ 1 ∷ 2 ∷ 3 ∷ 5 ∷ []
unfolding extra_chains chain_id get put
extra_order = refl

-- A name that is not assigned before it is loaded makes the compilation raise.
unassigned : compile_execution_graph (extra_source ∷ []) [] ≡ err key_error
unfolding compile_execution_graph get
unassigned = refl

topologically_sort-IsInOrder_example :
    IsInOrder [] extra_chains
    × All
        (HasChain two_sources.root_node_executor_mapping (ids extra_chains))
        extra_source.statements
topologically_sort-IsInOrder_example =
    topologically_sort-IsInOrder two_sources extra_source extra_chains extra_chains-sorted

compile_execution_graph-IsPlan_example :
    All (λ (p : String × List DependencyChain). IsPlan p.1) two_sources.sorted_dependency_chains
compile_execution_graph-IsPlan_example =
    compile_execution_graph-IsPlan sorted_sources all_sources two_sources two_sources-compiled
