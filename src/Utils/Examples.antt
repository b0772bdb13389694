-- ===== src/Utils/Examples.antt =====
-- Sorts of small graphs, and the witness of the theorem.
use trust_and_safety_demo.Base.{
  ◌≡◌, refl, true, some, [], ◌∷◌, nat_eq, AreAmong, InOrder, is_some, arith,
}
use trust_and_safety_demo.Base.Dict.{get, put, keys}
use trust_and_safety_demo.Utils.Defs.{
  Graph, iter_edges, add_edge, Sorting, went_well, cyclic, topological_sort,
}
use trust_and_safety_demo.Utils.Ending.{topological_sort_lem}

-- 1 imports 2 and 3, and 2 imports 3.
unfoldable imports : Graph
unfolding add_edge get put
imports = add_edge 2 3 (add_edge 1 3 (add_edge 1 2 []))

abbrev in_imports : Sorting
in_imports = record { sorted_path = []; visited = 1 ∷ 3 ∷ 2 ∷ []; sorted_nodes = 3 ∷ 2 ∷ 1 ∷ [] }

sorted_imports : topological_sort 4 imports ≡ some (went_well in_imports)
unfolding topological_sort imports iter_edges get put
sorted_imports = refl

-- 1 imports 4 and 2, and 2 and 3 each other: the path that is reported, the last node first, starts
-- before the cycle.
cycle :
    topological_sort 5 (add_edge 3 2 (add_edge 2 3 (add_edge 1 2 (add_edge 1 4 []))))
    ≡ some (cyclic (3 ∷ 2 ∷ 1 ∷ []))
unfolding topological_sort add_edge iter_edges get put
cycle = refl

topological_sort_lem_example :
    (is_some (topological_sort 4 imports) ≡ true)
    × ((t : Sorting)
        → topological_sort 4 imports ≡ some (went_well t)
        → InOrder (λ n. n) (λ n. iter_edges n imports) [] t.sorted_nodes
          × AreAmong (keys imports) t.sorted_nodes)
unfolding imports add_edge get put
topological_sort_lem_example = topological_sort_lem imports 4 (omega arith)
