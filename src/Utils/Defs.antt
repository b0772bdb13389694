-- ===== src/Utils/Defs.antt =====
-- `Graph` and its methods. The set of the edges of a node is a list without repetitions, whose order
-- stands for the order in which Python iterates over the set.
use trust_and_safety_demo.Base.{
  ℕ, zero, suc, Option, none, some, List, [], ◌∷◌, ◌++◌, nat_eq, elem, if◌then◌else◌, ◌==◌, Error,
  index_error, assertion_error,
}
use trust_and_safety_demo.Base.Dict.{Dict, get, put, contains, keys}

-- Nodes are numbered.
abbrev pub Graph : Type 0
Graph = Dict ℕ (List ℕ)

unfoldable pub add_node : ℕ → Graph → Graph
add_node node g = if contains node g then g else put node [] g

-- `iter_edges(node)`
unfoldable pub iter_edges : ℕ → Graph → List ℕ
iter_edges node g = elim (get node g) [ none ↦ [] | some edges ↦ edges ]

unfoldable pub add_edge : ℕ → ℕ → Graph → Graph
unfolding add_node iter_edges
add_edge node edge g =
    let g' = add_node edge g in
    let edges = iter_edges node g' in
    put node (if elem edge edges then edges else edges ++ edge ∷ []) g'

-- The local variables of `topological_sort`. `sorted_path` holds the nodes of `path`, the last first.
pub record Sorting : Type 0 where
  pub sorted_path : List ℕ
  pub visited : List ℕ
  pub sorted_nodes : List ℕ

-- How a call of `visit` ends: with the variables, with `CyclicDependencyError` of a path, or with
-- another exception.
pub data Visit : Type 0 where
  went_well : Sorting → Visit
  cyclic : List ℕ → Visit
  failed : Error → Visit

-- `visit` up to its loop, and from there on.
unfoldable pub enter : ℕ → Sorting → Sorting
enter node s = record s { sorted_path = node ∷ s.sorted_path; visited = node ∷ s.visited }

unfoldable pub leave : ℕ → Sorting → Visit
leave node s = elim s.sorted_path [
  | [] ↦ failed index_error
  | last ∷ path ↦
      if last == node
      then went_well (record s { sorted_path = path; sorted_nodes = s.sorted_nodes ++ node ∷ [] })
      else failed assertion_error
]

-- What goes on after a call of `visit` that went well.
unfoldable pub after : Option Visit → (Sorting → Option Visit) → Option Visit
after none next = none
after (some (went_well s)) next = next s
after (some (cyclic path)) next = some (cyclic path)
after (some (failed e)) next = some (failed e)

-- The loop of `visit` over the edges of a node, and the last loop of `topological_sort`, with `visit`
-- for the calls.
unfoldable pub visit_edges : (ℕ → Sorting → Option Visit) → List ℕ → Sorting → Option Visit
unfolding after
visit_edges visit [] s = some (went_well s)
visit_edges visit (edge ∷ edges) s =
    if elem edge s.sorted_path
    then some (cyclic s.sorted_path)
    else after (visit edge s) (λ s'. visit_edges visit edges s')

unfoldable pub visit_nodes : (ℕ → Sorting → Option Visit) → List ℕ → Sorting → Option Visit
unfolding after
visit_nodes visit [] s = some (went_well s)
visit_nodes visit (it ∷ its) s = after (visit it s) (λ s'. visit_nodes visit its s')

-- `visit(node)`, or nothing if `fuel` calls inside each other are not enough.
unfoldable pub visit : Graph → ℕ → ℕ → Sorting → Option Visit
unfolding visit_edges enter leave iter_edges
visit g zero node s = none
visit g (suc fuel) node s =
    if elem node s.visited
    then some (went_well s)
    else after (visit_edges (visit g fuel) (iter_edges node g) (enter node s))
        (λ s'. some (leave node s'))

unfoldable pub topological_sort : ℕ → Graph → Option Visit
unfolding visit visit_nodes
topological_sort fuel g =
    visit_nodes (visit g fuel) (keys g)
      (record { sorted_path = []; visited = []; sorted_nodes = [] })
