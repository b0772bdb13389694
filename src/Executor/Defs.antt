-- ===== src/Executor/Defs.antt =====
-- The state of an `ExecutionContext`, its methods that change what is scheduled, and `execute`.
use trust_and_safety_demo.Base.{
  ℕ, zero, suc, Option, none, some, List, [], ◌∷◌, String, string_eq, nat_eq, if◌then◌else◌, Result,
  ok, err, key_error, ◌>>=◌,
}
use trust_and_safety_demo.Base.Dict.{Dict, get, put}
use trust_and_safety_demo.Graph.Defs.{
  DependencyChain, chain_id, chain_node, dependent_ids, ExecutionGraph, lookup,
}
use trust_and_safety_demo.Sorter.Defs.{
  TopologicalSorter, empty, already_added, add, prepare, get_ready, done,
}
use trust_and_safety_demo.Execution.Values.{Attempt, raised, exception, Resolved}
use trust_and_safety_demo.Execution.Wrapping.{NodeErrorInfo, wrapped_execution}

pub record ExecutionContext (V : Type 0) : Type 0 where
  pub dependency_dag : TopologicalSorter
  pub chain_by_id : Dict ℕ DependencyChain
  pub resolved_node_values : Resolved V
  pub error_infos : List NodeErrorInfo

-- `[self._chain_by_id[nodeid] for nodeid in ready_nodeids]`
unfoldable pub chains_of : Dict ℕ DependencyChain → List ℕ → Result (List DependencyChain)
unfolding lookup
chains_of chain_by_id [] = ok []
chains_of chain_by_id (nodeid ∷ nodeids) = do
  chain ← lookup (get nodeid chain_by_id)
  chains ← chains_of chain_by_id nodeids
  ok (chain ∷ chains)

-- What the executor of a chain does with a context: the sources that it enqueues, and what it then
-- returns or raises.
abbrev pub Behaviour : Type 0 → Type 0
Behaviour V = DependencyChain → ExecutionContext V → List String × Attempt V

module _ {V : Type 0} where
  -- The fields that `__init__` starts from; `error_infos` is the list that `execute` makes.
  abbrev pub new_context : ExecutionContext V
  new_context = record {
    dependency_dag = empty;
    chain_by_id = [];
    resolved_node_values = [];
    error_infos = [];
  }

  -- The body of the loop of `enqueue_source`.
  unfoldable pub enqueue_chain : DependencyChain → ExecutionContext V → Result (ExecutionContext V)
  unfolding already_added
  enqueue_chain chain context =
      if already_added (chain_id chain) context.dependency_dag then ok context else do
        dag ← add (chain_id chain) (dependent_ids chain) context.dependency_dag
        ok (record context {
          dependency_dag = dag;
          chain_by_id = put (chain_id chain) chain context.chain_by_id;
        })

  -- The loop: the context that it leaves, and whether it raised.
  unfoldable pub enqueue_chains :
      List DependencyChain → ExecutionContext V → ExecutionContext V × Result (Unit {0})
  unfolding enqueue_chain
  enqueue_chains [] context = (context, ok tt)
  enqueue_chains (chain ∷ chains) context = elim (enqueue_chain chain context) [
    | ok context' ↦ enqueue_chains chains context'
    | err e ↦ (context, err e)
  ]

  -- `enqueue_source(source)`
  unfoldable pub enqueue_source :
      ExecutionGraph → String → ExecutionContext V → ExecutionContext V × Result (Unit {0})
  unfolding enqueue_chains
  enqueue_source graph source context = elim (get source graph.sorted_dependency_chains) [
    | none ↦ (context, err key_error)
    | some chains ↦
        let (context', r) = enqueue_chains chains context in
        elim r [
          | err e ↦ (context', err e)
          | ok _ ↦ (record context' { dependency_dag = prepare context'.dependency_dag }, ok tt)
        ]
  ]

  -- The sources that an `Import` or a `Require` enqueues, one after the other.
  unfoldable pub enqueue_sources :
      ExecutionGraph → List String → ExecutionContext V → ExecutionContext V × Result (Unit {0})
  unfolding enqueue_source
  enqueue_sources graph [] context = (context, ok tt)
  enqueue_sources graph (source ∷ sources) context =
      let (context', r) = enqueue_source graph source context in
      elim r [ err e ↦ (context', err e) | ok _ ↦ enqueue_sources graph sources context' ]

  -- `get_ready_to_execute()`
  unfoldable pub get_ready_to_execute :
      ExecutionContext V → Result (List DependencyChain × ExecutionContext V)
  unfolding chains_of
  get_ready_to_execute context = do
    (nodeids, dag) ← get_ready context.dependency_dag
    chains ← chains_of context.chain_by_id nodeids
    ok (chains, record context { dependency_dag = dag })

  -- `set_resolved_value(chain, value)`
  unfoldable pub set_resolved_value :
      DependencyChain → Option V → ExecutionContext V → Result (ExecutionContext V)
  unfolding chain_node
  set_resolved_value chain value context =
      let (dag, r) = done (chain_id chain ∷ []) context.dependency_dag in
      do
        u ← r
        ok (record context {
          dependency_dag = dag;
          resolved_node_values = put (chain_node chain) value context.resolved_node_values;
        })

  module _ (behaviour : Behaviour V) (graph : ExecutionGraph) where
    -- `_wrapped_execution(chain, context, error_infos)`
    unfoldable pub run_chain : DependencyChain → ExecutionContext V → Option V × ExecutionContext V
    unfolding enqueue_sources
    run_chain chain context =
        let (sources, attempt) = behaviour chain context in
        let (context', r) = enqueue_sources graph sources context in
        let attempt' : Attempt V = elim r [ ok _ ↦ attempt | err e ↦ raised (exception e) ] in
        let (value, infos) = wrapped_execution (chain_node chain) attempt' context'.error_infos in
        (value, record context' { error_infos = infos })

    -- The loop of `execute` over the chains that are ready.
    unfoldable pub run_chains :
        List DependencyChain → ExecutionContext V → Result (ExecutionContext V)
    unfolding run_chain set_resolved_value
    run_chains [] context = ok context
    run_chains (chain ∷ chains) context =
        let (value, context') = run_chain chain context in
        do context'' ← set_resolved_value chain value context'; run_chains chains context''

    -- The `while` loop of `execute`: nothing if `fuel` rounds are not enough.
    unfoldable pub execute_loop :
        ℕ → List DependencyChain → ExecutionContext V → Option (Result (ExecutionContext V))
    unfolding run_chains get_ready_to_execute
    execute_loop fuel [] context = some (ok context)
    execute_loop zero (chain ∷ chains) context = none
    execute_loop (suc fuel) (chain ∷ chains) context =
        elim (do context' ← run_chains (chain ∷ chains) context; get_ready_to_execute context') [
          | err e ↦ some (err e)
          | ok (ready, context') ↦ execute_loop fuel ready context'
        ]

    -- `execute`, up to the result that it makes of the context.
    unfoldable pub execute : ℕ → String → Option (Result (ExecutionContext V))
    unfolding execute_loop
    execute fuel entry_point =
        let (context, r) = enqueue_source graph entry_point new_context in
        elim (do u ← r; get_ready_to_execute context) [
          | err e ↦ some (err e)
          | ok (ready, context') ↦ execute_loop fuel ready context'
        ]
