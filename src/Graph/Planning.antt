-- ===== src/Graph/Planning.antt =====
-- The sorted chains of a graph that was compiled (`_topologically_sort` over the chains of Compiling).
use trust_and_safety_demo.Base.{
  ℕ, ◌≡◌, subst, inl, inr, Bool-cases, List, [], ◌∷◌, string_eq, nat_eq, elem, All, All-append,
  arith, ok, >>=-eq-ok,
}
use trust_and_safety_demo.Base.Dict.{Dict, get, put, All-get, All-put}
use trust_and_safety_demo.Graph.Defs.{
  DependencyChain, dependency_chain, Chains, no_chains, ◌⨾◌, chain_id, Statement, Source,
  ExecutionGraph, no_graph, lookup, add_validated_sources, Sorting, visit, do_topological_sort,
  sort_chains, sort_statements, topologically_sort, add_sorted_chains, compile_execution_graph,
  chain_dedupe,
}
use trust_and_safety_demo.Graph.Sorting.{lookup-ok, topologically_sort-IsInOrder}
use trust_and_safety_demo.Graph.Compiling.{
  IsBuilt, AreBuilt, IsBelow, Below, IsPlan, IsMade, add_validated_sources-IsMade,
}

-- The sort keeps chains that are built.
visit-IsBuilt :
    (c : DependencyChain) (s : Sorting)
    → IsBuilt c
    → All IsBuilt s.sorted_chain
    → All IsBuilt (visit c s).sorted_chain
unfolding visit
visit-IsBuilt c s b h = elim (Bool-cases (elem (chain_id c) s.visited)) [
  | inl old ↦ rw old h
  | inr new ↦ rw new (All-append IsBuilt s.sorted_chain (c ∷ []) h (b, tt))
]

mutual
  unfolding do_topological_sort IsBuilt

  do_topological_sort-IsBuilt :
      (c : DependencyChain) (s : Sorting)
      → IsBuilt c
      → All IsBuilt s.sorted_chain
      → All IsBuilt (do_topological_sort c s).sorted_chain
  do_topological_sort-IsBuilt (dependency_chain i n deps) s b h =
      visit-IsBuilt (dependency_chain i n deps) (sort_chains deps s) b
        (sort_chains-IsBuilt i deps s b h)

  sort_chains-IsBuilt :
      (n : ℕ) (cs : Chains) (s : Sorting)
      → AreBuilt n cs
      → All IsBuilt s.sorted_chain
      → All IsBuilt (sort_chains cs s).sorted_chain
  sort_chains-IsBuilt n no_chains s b h = h
  sort_chains-IsBuilt n (c ⨾ cs) s b h =
      sort_chains-IsBuilt n cs (do_topological_sort c s) b.2 (do_topological_sort-IsBuilt c s b.1 h)

sort_statements-IsBuilt :
    (n : ℕ) (roots : Dict ℕ DependencyChain) (xs : List Statement) (s t : Sorting)
    → Below n roots
    → All IsBuilt s.sorted_chain
    → sort_statements roots xs s ≡ ok t
    → All IsBuilt t.sorted_chain
unfolding sort_statements IsBelow
sort_statements-IsBuilt n roots [] s t b h e =
    let same : s ≡ t = ground arith in subst (λ (u : Sorting). All IsBuilt u.sorted_chain) same h
sort_statements-IsBuilt n roots (x ∷ xs) s t b h e =
    let (c, found, rest) = >>=-eq-ok (lookup (get x.node roots)) _ e in
    let (below, made) =
      All-get (λ v. IsBelow n v) x.node roots b (lookup-ok (get x.node roots) found) in
    sort_statements-IsBuilt n roots xs (do_topological_sort c s) t b
      (do_topological_sort-IsBuilt c s made h) rest

topologically_sort-IsPlan :
    (g : ExecutionGraph) (source : Source) (cs : List DependencyChain)
    → IsMade g
    → topologically_sort g source ≡ ok cs
    → IsPlan cs
unfolding topologically_sort IsPlan
topologically_sort-IsPlan g source cs h e =
    let start : Sorting = record { visited = []; sorted_chain = [] } in
    let (s, run, out) =
      >>=-eq-ok (sort_statements g.root_node_executor_mapping source.statements start) _ e in
    let same : s.sorted_chain ≡ cs = ground arith in
    (
      (topologically_sort-IsInOrder g source cs e).0,
      subst (All IsBuilt) same (
          sort_statements-IsBuilt g.next_id g.root_node_executor_mapping source.statements start s
            h.roots tt run),
    )

add_sorted_chains-IsMade :
    (sources : List Source) (g g' : ExecutionGraph)
    → IsMade g
    → add_sorted_chains sources g ≡ ok g'
    → IsMade g'
unfolding add_sorted_chains
add_sorted_chains-IsMade [] g g' h e = subst IsMade (ground arith) h
add_sorted_chains-IsMade (x ∷ xs) g g' h e =
    let (cs, run, rest) = >>=-eq-ok (topologically_sort g x) _ e in
    add_sorted_chains-IsMade xs
      (record g { sorted_dependency_chains = put x.path cs g.sorted_dependency_chains }) g'
      (record {
        roots = h.roots;
        names = h.names;
        plans =
            All-put IsPlan x.path cs g.sorted_dependency_chains
              (topologically_sort-IsPlan g x cs h run) h.plans;
      })
      rest

-- In a graph that was compiled, the sorted chains of every source are distinct, each comes after all
-- the chains that it depends on, and each is younger than these, down to the last: no chain depends
-- on itself.
pub compile_execution_graph-IsPlan :
    (sorted_sources sources : List Source) (g : ExecutionGraph)
    → compile_execution_graph sorted_sources sources ≡ ok g
    → All (λ p. IsPlan p.1) g.sorted_dependency_chains
unfolding compile_execution_graph
compile_execution_graph-IsPlan sorted_sources sources g e =
    let ordered : List Source = chain_dedupe sorted_sources sources in
    let (m, run, rest) = >>=-eq-ok (add_validated_sources ordered no_graph) _ e in
    let made =
      add_validated_sources-IsMade ordered no_graph m
        (record { roots = tt; names = tt; plans = tt }) run in
    (add_sorted_chains-IsMade ordered m g made rest).plans
