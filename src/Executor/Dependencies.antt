-- ===== src/Executor/Dependencies.antt =====
-- What a node sees when it runs.
use trust_and_safety_demo.Base.{
  ℕ, zero, suc, ◌≡◌, refl, sym, subst, ap, ◌∙◌, inl, inr, true, false, Option, none, some, List, [],
  ◌∷◌, ◌++◌, String, string_eq, nat_eq, ok, ◌>>=◌, assertion_error, Bool, if◌then◌else◌, all,
  Option-cases, All, All-imp, elem, arith,
}
use trust_and_safety_demo.Base.Dict.{get, contains}
use trust_and_safety_demo.Graph.Defs.{
  DependencyChain, chain_id, chain_node, dependent_ids, Source, ExecutionGraph,
  compile_execution_graph,
}
use trust_and_safety_demo.Graph.Sorting.{ids}
use trust_and_safety_demo.Graph.Planning.{compile_execution_graph-IsPlan}
use trust_and_safety_demo.Sorter.Calls.{History}
use trust_and_safety_demo.Execution.Values.{raised, exception}
use trust_and_safety_demo.Executor.Defs.{
  ExecutionContext, new_context, Behaviour, run_chain, run_chains, set_resolved_value, execute_loop,
  execute,
}
use trust_and_safety_demo.Executor.Opening.{IsOpen, Grows-trans, known_contains, finished_known}
use trust_and_safety_demo.Executor.Sources.{ArePlans, enqueue_source-Enqueued}
use trust_and_safety_demo.Executor.Running.{
  AreStored, run_chain-Enqueued, set_resolved_value-IsOpen, run_chains-Ran,
}
use trust_and_safety_demo.Executor.Ending.{
  AreDone, execute_loop-next, get_ready_to_execute-IsOpen, all_ids, all_ids-plans,
  new_context-IsOpen,
}
use trust_and_safety_demo.Executor.Liveness.{IsResolved, execute-run}
use trust_and_safety_demo.Graph.Deduping.{paths, compile_execution_graph-contains}

-- All that a chain depends on has come to its value or failure.
unfoldable pub HasDependencies : {V : Type 0} → ExecutionContext V → DependencyChain → Type 0
HasDependencies c d =
    All (λ k. (e : DependencyChain) × (get k c.chain_by_id ≡ some e) × IsResolved c e)
      (dependent_ids d)

-- Two behaviours agree where a chain has its dependencies.
unfoldable pub Agree : {V : Type 0} → Behaviour V → Behaviour V → Type 0
Agree {V} b b' =
    (d : DependencyChain) (c : ExecutionContext V) → HasDependencies c d → b d c ≡ b' d c

-- What is done has its value.
AreDone-resolved :
    {V : Type 0} (us outs : List ℕ) (c : ExecutionContext V) (h : History)
    → IsOpen us outs c h
    → (ks : List ℕ) → AreDone h ks
    → All (λ k. (e : DependencyChain) × (get k c.chain_by_id ≡ some e) × IsResolved c e) ks
unfolding IsResolved
AreDone-resolved us outs c h o ks a =
    All-imp _ _
      (λ k f.
        let there =
          known_contains c.dependency_dag.node2info c.chain_by_id o.known k
            (finished_known us outs c h o k f) in
        elim (Option-cases (get k c.chain_by_id)) [
          | inl missing ↦ absurd (ground (arith, there, missing))
          | inr (e, found) ↦ (e, found, o.resolved k e f found)
        ])
      ks a

AreDone-more :
    (h h' : History)
    → ((k : ℕ) → elem k h.finished ≡ true → elem k h'.finished ≡ true)
    → (ds : List DependencyChain) → All (λ d. AreDone h (dependent_ids d)) ds
    → All (λ d. AreDone h' (dependent_ids d)) ds
AreDone-more h h' f ds a = All-imp _ _ (λ d m. All-imp _ _ (λ k e. f k e) (dependent_ids d) m) ds a

module _ {V : Type 0} (us : List ℕ) (graph : ExecutionGraph) (plans : ArePlans us graph)
    (b b' : Behaviour V) (agree : Agree b b') where
  run_chain-Agree :
      (d : DependencyChain) (c : ExecutionContext V)
      → b d c ≡ b' d c
      → run_chain b graph d c ≡ run_chain b' graph d c
  unfolding run_chain
  run_chain-Agree d c e = ap (λ q. run_chain (λ n x. q) graph d c) e

  run_chains-next :
      (f : Behaviour V) (d : DependencyChain) (ds : List DependencyChain)
      (c c2 : ExecutionContext V)
      → set_resolved_value d (run_chain f graph d c).0 (run_chain f graph d c).1 ≡ ok c2
      → run_chains f graph (d ∷ ds) c ≡ run_chains f graph ds c2
  unfolding run_chains
  run_chains-next f d ds c c2 e = ap (λ q. q >>= λ x. run_chains f graph ds x) e

  run_chains-Agree :
      (ds : List DependencyChain) (c : ExecutionContext V) (h : History)
      → IsOpen us (ids ds) c h
      → AreStored us b graph plans c ds
      → c.dependency_dag.needs_prepare ≡ false
      → All (λ d. AreDone h (dependent_ids d)) ds
      → run_chains b graph ds c ≡ run_chains b' graph ds c
  unfolding run_chains Agree HasDependencies
  run_chains-Agree [] c h o a p w = refl
  run_chains-Agree (d ∷ ds) c h o a p w =
      let first =
        run_chain-Agree d c
          (agree d c (AreDone-resolved us (ids (d ∷ ds)) c h o (dependent_ids d) w.0)) in
      let (e1, p1) = run_chain-Enqueued us b graph plans (chain_id d ∷ ids ds) d c h o p in
      let value = (run_chain b graph d c).0 in
      let c1 = (run_chain b graph d c).1 in
      let (c2, run, o2, p2, g2) =
        set_resolved_value-IsOpen us (ids ds) d value c1 e1.history e1.opened
          (e1.grows.chains (chain_id d) d a.0) p1 in
      let g = Grows-trans e1.grows g2 in
      let h2 : History = record e1.history { finished = chain_id d ∷ e1.history.finished } in
      let rest =
        run_chains-Agree ds c2 h2 o2 (All-imp _ _ (λ x m. g.chains (chain_id x) x m) ds a.1) p2
          (AreDone-more h h2 (λ k m. rw e1.same (rw m (ground arith))) ds w.1) in
      let run' : set_resolved_value d (run_chain b' graph d c).0 (run_chain b' graph d c).1
          ≡ ok c2 =
        subst (λ (q : Option V × ExecutionContext V). set_resolved_value d q.0 q.1 ≡ ok c2) first
          run in
      run_chains-next b d ds c c2 run ∙ rest ∙ sym (run_chains-next b' d ds c c2 run')

  execute_loop-Agree :
      (fuel : ℕ) (ds : List DependencyChain) (c : ExecutionContext V) (h : History)
      → IsOpen us (ids ds) c h
      → AreStored us b graph plans c ds
      → c.dependency_dag.needs_prepare ≡ false
      → All (λ d. AreDone h (dependent_ids d)) ds
      → execute_loop b graph fuel ds c ≡ execute_loop b' graph fuel ds c
  unfolding execute_loop
  execute_loop-Agree fuel [] c h o a p w = refl
  execute_loop-Agree zero (d ∷ ds) c h o a p w = refl
  execute_loop-Agree (suc fuel) (d ∷ ds) c h o a p w =
      let same = run_chains-Agree (d ∷ ds) c h o a p w in
      let (c1, run, x) = run_chains-Ran us b graph plans (d ∷ ds) c h o a p in
      let (ready, c2, run', o2, p2, a2, g2, q2, w2) =
        get_ready_to_execute-IsOpen us c1 x.history x.opened x.prepared in
      execute_loop-next us b graph plans fuel d ds ready c c1 c2 run run'
      ∙ execute_loop-Agree fuel ready c2 x.history o2 a2 p2 w2
      ∙ sym (execute_loop-next us b' graph plans fuel d ds ready c c1 c2 (sym same ∙ run) run')

-- Behaviours that agree make `execute` give the same.
execute-Agree :
    {V : Type 0} (b b' : Behaviour V) (sorted_sources sources : List Source)
    (graph : ExecutionGraph) (entry : String) (fuel : ℕ)
    → Agree b b'
    → compile_execution_graph sorted_sources sources ≡ ok graph
    → elem entry (paths (sorted_sources ++ sources)) ≡ true
    → execute b graph fuel entry ≡ execute b' graph fuel entry
execute-Agree {V} b b' sorted_sources sources graph entry fuel agree compiled here =
    let us : List ℕ = all_ids graph.sorted_dependency_chains in
    let plans : ArePlans us graph =
      all_ids-plans us graph.sorted_dependency_chains
        (compile_execution_graph-IsPlan sorted_sources sources graph compiled) (λ k m. m) in
    let there = compile_execution_graph-contains sorted_sources sources graph compiled entry here in
    let h : History = record { edges = []; finished = [] } in
    elim (Option-cases (get entry graph.sorted_dependency_chains)) [
      | inl missing ↦ absurd (ground (arith, there, missing))
      | inr (ds, found) ↦
          let (c0, run, e, p, x, stored) =
            enqueue_source-Enqueued us [] graph plans entry ds (new_context {V = V}) h
              (new_context-IsOpen us) found in
          let (ready, c1, run1, o1, p1, a1, g1, q1, w1) =
            get_ready_to_execute-IsOpen us c0 e.history e.opened p in
          execute-run b graph fuel entry ready c0 c1 run run1
          ∙ execute_loop-Agree us graph plans b b' agree fuel ready c1 e.history o1 a1 p1 w1
          ∙ sym (execute-run b' graph fuel entry ready c0 c1 run run1)
    ]

-- The test of `HasDependencies`, and the behaviour that makes it before each chain.
unfoldable pub is_resolved : {V : Type 0} → ExecutionContext V → ℕ → Bool
is_resolved c k = elim (get k c.chain_by_id) [
  | none ↦ false
  | some e ↦ contains (chain_node e) c.resolved_node_values
]

unfoldable pub checked : {V : Type 0} → Behaviour V → Behaviour V
unfolding is_resolved
checked b d c =
    if all (is_resolved c) (dependent_ids d)
    then b d c
    else ([], raised (exception assertion_error))

all_resolved :
    {V : Type 0} (c : ExecutionContext V) (ks : List ℕ)
    → All (λ k. (e : DependencyChain) × (get k c.chain_by_id ≡ some e) × IsResolved c e) ks
    → all (is_resolved c) ks ≡ true
unfolding is_resolved IsResolved
all_resolved c [] a = refl
all_resolved c (k ∷ ks) a =
    let (e, found, r) = a.0 in
    let here : is_resolved c k ≡ true = rw (is_resolved, found) r in rw here (all_resolved c ks a.1)

checked-Agree : {V : Type 0} (b : Behaviour V) → Agree b (checked b)
unfolding Agree HasDependencies checked
checked-Agree b d c a = rw (all_resolved c (dependent_ids d) a) refl

-- A chain is run only when all that it depends on has come to its value or failure: in a compiled
-- graph, from any source that it was compiled from, with any fuel and whatever the nodes do, a test
-- of this before each chain, which raises where it fails, does not change what `execute` gives.
pub execute-checked :
    {V : Type 0} (b : Behaviour V) (sorted_sources sources : List Source) (graph : ExecutionGraph)
    (entry : String) (fuel : ℕ)
    → compile_execution_graph sorted_sources sources ≡ ok graph
    → elem entry (paths (sorted_sources ++ sources)) ≡ true
    → execute b graph fuel entry ≡ execute (checked b) graph fuel entry
execute-checked b sorted_sources sources graph entry fuel compiled here =
    execute-Agree b (checked b) sorted_sources sources graph entry fuel (checked-Agree b) compiled
      here
