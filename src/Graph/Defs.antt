-- ===== src/Graph/Defs.antt =====
-- Dependency chains, how they are built from the nodes of the syntax tree, and how a source's chains
-- are sorted. A chain is compared by its executor, of which each chain has its own: by its identity,
-- `id`, which counts the chains that were made before it.
use trust_and_safety_demo.Base.{
  ℕ, suc, Option, none, some, List, [], ◌∷◌, ◌++◌, String, string_eq, nat_eq, elem, if◌then◌else◌,
  Result, ok, err, key_error, ◌>>=◌,
}
use trust_and_safety_demo.Base.Dict.{Dict, get, put}

infixr 6 ◌&◌
-- A node: a name that is loaded, with its `identifier_key`, or another node with the nodes that its
-- executor depends on, `get_dependent_nodes()`.
mutual
  pub data AstNode : Type 0 where
    load : String → AstNode
    other : ℕ → Nodes → AstNode

  pub data Nodes : Type 0 where
    no_nodes : Nodes
    ◌&◌ : AstNode → Nodes → Nodes

-- A `DependencyChain`: its identity, the node of its executor and `dependent_on`.
infixr 6 ◌⨾◌
mutual
  pub data DependencyChain : Type 0 where
    dependency_chain : ℕ → ℕ → Chains → DependencyChain

  pub data Chains : Type 0 where
    no_chains : Chains
    ◌⨾◌ : DependencyChain → Chains → Chains

unfoldable pub chain_id : DependencyChain → ℕ
chain_id (dependency_chain id node deps) = id

unfoldable pub chain_node : DependencyChain → ℕ
chain_node (dependency_chain id node deps) = node

unfoldable pub ids_of : Chains → List ℕ
unfolding chain_id
ids_of no_chains = []
ids_of (c ⨾ cs) = chain_id c ∷ ids_of cs

-- `id(pred) for pred in chain.dependent_on`
unfoldable pub dependent_ids : DependencyChain → List ℕ
unfolding ids_of
dependent_ids (dependency_chain id node deps) = ids_of deps

-- A statement: the identity of its node, the name that it assigns to, if it does, and the nodes that
-- its executor depends on.
pub record Statement : Type 0 where
  pub node : ℕ
  pub target : Option String
  pub dependents : Nodes

pub record Source : Type 0 where
  pub path : String
  pub statements : List Statement

pub record ExecutionGraph : Type 0 where
  pub root_node_executor_mapping : Dict ℕ DependencyChain
  pub assignment_executor_mapping : Dict String DependencyChain
  pub sorted_dependency_chains : Dict String (List DependencyChain)
  pub next_id : ℕ

abbrev pub no_graph : ExecutionGraph
no_graph = record {
  root_node_executor_mapping = [];
  assignment_executor_mapping = [];
  sorted_dependency_chains = [];
  next_id = 0;
}

-- What a dict has at a key, where a missing key raises.
unfoldable pub lookup {ℓ} : {A : Type ℓ} → Option A → Result A
lookup none = err key_error
lookup (some a) = ok a

-- `_build_dependency_chain`, from the next free identity: the chain and the next one after it.
unfoldable mutual
  unfolding lookup

  pub build : Dict String DependencyChain → AstNode → ℕ → Result (DependencyChain × ℕ)
  build names (load key) n = do c ← lookup (get key names); ok (c, n)
  build names (other node deps) n = do
    (cs, n') ← build_all names deps n
    ok (dependency_chain n' node cs, suc n')

  pub build_all : Dict String DependencyChain → Nodes → ℕ → Result (Chains × ℕ)
  build_all names no_nodes n = ok (no_chains, n)
  build_all names (x & xs) n = do
    (c, n') ← build names x n
    (cs, n'') ← build_all names xs n'
    ok (c ⨾ cs, n'')

-- The body of the loop of `_add_validated_source`.
unfoldable pub add_statement : Statement → ExecutionGraph → Result ExecutionGraph
unfolding build
add_statement s g = do
  (c, n) ← build g.assignment_executor_mapping (other s.node s.dependents) g.next_id
  ok (record g {
    root_node_executor_mapping = put s.node c g.root_node_executor_mapping;
    assignment_executor_mapping = elim s.target [
      | none ↦ g.assignment_executor_mapping
      | some key ↦ put key c g.assignment_executor_mapping
    ];
    next_id = n;
  })

unfoldable pub add_statements : List Statement → ExecutionGraph → Result ExecutionGraph
unfolding add_statement
add_statements [] g = ok g
add_statements (s ∷ ss) g = do g' ← add_statement s g; add_statements ss g'

unfoldable pub add_validated_sources : List Source → ExecutionGraph → Result ExecutionGraph
unfolding add_statements
add_validated_sources [] g = ok g
add_validated_sources (s ∷ ss) g = do
  g' ← add_statements s.statements g
  add_validated_sources ss g'

-- `visited` and `sorted_chain` of `_topologically_sort_dependency_chain_for`.
pub record Sorting : Type 0 where
  pub visited : List ℕ
  pub sorted_chain : List DependencyChain

-- What `do_topological_sort` does after it has sorted the dependencies.
unfoldable pub visit : DependencyChain → Sorting → Sorting
unfolding chain_id
visit c s =
    if elem (chain_id c) s.visited
    then s
    else record { visited = s.visited ++ chain_id c ∷ []; sorted_chain = s.sorted_chain ++ c ∷ [] }

unfoldable mutual
  unfolding visit

  pub do_topological_sort : DependencyChain → Sorting → Sorting
  do_topological_sort (dependency_chain id node deps) s =
      visit (dependency_chain id node deps) (sort_chains deps s)

  pub sort_chains : Chains → Sorting → Sorting
  sort_chains no_chains s = s
  sort_chains (c ⨾ cs) s = sort_chains cs (do_topological_sort c s)

unfoldable pub sort_statements : Dict ℕ DependencyChain → List Statement → Sorting → Result Sorting
unfolding lookup do_topological_sort
sort_statements roots [] s = ok s
sort_statements roots (x ∷ xs) s = do
  c ← lookup (get x.node roots)
  sort_statements roots xs (do_topological_sort c s)

-- `_topologically_sort_dependency_chain_for`
unfoldable pub topologically_sort : ExecutionGraph → Source → Result (List DependencyChain)
unfolding sort_statements
topologically_sort g source = do
  s ←
      sort_statements g.root_node_executor_mapping source.statements
        (record { visited = []; sorted_chain = [] })
  ok s.sorted_chain

unfoldable pub add_sorted_chains : List Source → ExecutionGraph → Result ExecutionGraph
unfolding topologically_sort
add_sorted_chains [] g = ok g
add_sorted_chains (source ∷ sources) g = do
  cs ← topologically_sort g source
  add_sorted_chains sources
      (record g { sorted_dependency_chains = put source.path cs g.sorted_dependency_chains })

-- The generator `chain_dedupe`: the items of both that were not seen before, by their paths.
unfoldable pub dedupe : List Source → List String → List Source
dedupe [] seen = []
dedupe (x ∷ xs) seen =
    if elem x.path seen then dedupe xs seen else x ∷ dedupe xs (seen ++ x.path ∷ [])

unfoldable pub chain_dedupe : List Source → List Source → List Source
unfolding dedupe
chain_dedupe first second = dedupe (first ++ second) []

-- `compile_execution_graph`, from the sources sorted by their imports and all the sources.
unfoldable pub compile_execution_graph : List Source → List Source → Result ExecutionGraph
unfolding add_validated_sources add_sorted_chains chain_dedupe
compile_execution_graph sorted_sources sources =
    let ordered = chain_dedupe sorted_sources sources in
    do g ← add_validated_sources ordered no_graph; add_sorted_chains ordered g
