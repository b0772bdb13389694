-- ===== src/Executor/Liveness.antt =====
-- `execute` of a compiled graph, from the entry point to the end.
use trust_and_safety_demo.Base.{
  unfinished-length, ℕ, zero, suc, ◌+◌, ◌-◌, ◌≤◌, ◌≡◌, refl, sym, subst, ap, ◌∙◌, inl, inr, true,
  Option, some, List, [], ◌∷◌, ◌++◌, String, string_eq, nat_eq, Result, ok, err, ◌>>=◌,
  Option-cases, Result-cases, All, All-imp, elem, length, arith,
}
use trust_and_safety_demo.Base.Dict.{get, contains}
use trust_and_safety_demo.Graph.Defs.{
  DependencyChain, chain_id, chain_node, Source, ExecutionGraph, compile_execution_graph,
}
use trust_and_safety_demo.Graph.Compiling.{IsPlan}
use trust_and_safety_demo.Graph.Planning.{compile_execution_graph-IsPlan}
use trust_and_safety_demo.Graph.Deduping.{paths, compile_execution_graph-contains}
use trust_and_safety_demo.Sorter.Calls.{History}
use trust_and_safety_demo.Executor.Defs.{
  ExecutionContext, new_context, Behaviour, enqueue_source, get_ready_to_execute, run_chains,
  execute_loop, execute,
}
use trust_and_safety_demo.Executor.Opening.{IsOpen, Grows-trans, known_contains}
use trust_and_safety_demo.Executor.Sources.{ArePlans, enqueue_source-Enqueued}
use trust_and_safety_demo.Executor.Ending.{
  get_ready_to_execute-IsOpen, execute_loop-Ended, all_ids, all_ids-plans, new_context-IsOpen,
}

-- The chain's node has what it came to.
unfoldable pub IsResolved : {V : Type 0} → ExecutionContext V → DependencyChain → Type 0
IsResolved c d = contains (chain_node d) c.resolved_node_values ≡ true

-- How a run of `execute` ends.
pub record Finished {V : Type 0} (ds : List DependencyChain) (c : ExecutionContext V) : Type 0 where
  pub entry : All (IsResolved c) ds
  pub enqueued :
      (k : ℕ)
      → contains k c.dependency_dag.node2info ≡ true
      → (d : DependencyChain) × (get k c.chain_by_id ≡ some d) × IsResolved c d

module _ {V : Type 0} (behaviour : Behaviour V) (graph : ExecutionGraph) where
  pub execute-run :
      (fuel : ℕ) (entry : String) (ready : List DependencyChain) (c c1 : ExecutionContext V)
      → enqueue_source graph entry (new_context {V = V}) ≡ (c, ok tt)
      → get_ready_to_execute c ≡ ok (ready, c1)
      → execute behaviour graph fuel entry ≡ execute_loop behaviour graph fuel ready c1
  unfolding execute
  execute-run fuel entry ready c c1 e e' =
      let rest : Result (List DependencyChain × ExecutionContext V)
          → Option (Result (ExecutionContext V)) =
        λ q. elim q [
          | err x ↦ some (err x)
          | ok (ready, context) ↦ execute_loop behaviour graph fuel ready context
        ] in
      ap
        (λ (q : ExecutionContext V × Result (Unit {0})).
          rest (q.1 >>= λ u. get_ready_to_execute q.0))
        e
      ∙ ap rest e'

  all_resolved :
      (us : List ℕ) (c : ExecutionContext V) (h : History)
      → IsOpen us [] c h
      → ((k : ℕ) → contains k c.dependency_dag.node2info ≡ true → elem k h.finished ≡ true)
      → (k : ℕ) (d : DependencyChain) → get k c.chain_by_id ≡ some d
      → IsResolved c d
  unfolding IsResolved
  all_resolved us c h o f k d e = o.resolved k d (f k (o.added k (rw e refl))) e

  known_resolved :
      (us : List ℕ) (c : ExecutionContext V) (h : History)
      → IsOpen us [] c h
      → ((k : ℕ) → contains k c.dependency_dag.node2info ≡ true → elem k h.finished ≡ true)
      → (k : ℕ) → contains k c.dependency_dag.node2info ≡ true
      → (d : DependencyChain) × (get k c.chain_by_id ≡ some d) × IsResolved c d
  known_resolved us c h o f k m = elim (Option-cases (get k c.chain_by_id)) [
    | inl missing ↦
        let there = known_contains c.dependency_dag.node2info c.chain_by_id o.known k m in
        absurd (ground (arith, there, missing))
    | inr (d, found) ↦ (d, found, all_resolved us c h o f k d found)
  ]

  execute_ends :
      (entry : String) (ds : List DependencyChain) (fuel : ℕ)
      → All (λ p. IsPlan p.1) graph.sorted_dependency_chains
      → get entry graph.sorted_dependency_chains ≡ some ds
      → length (all_ids graph.sorted_dependency_chains) ≤ fuel
      → (c : ExecutionContext V) × (execute behaviour graph fuel entry ≡ some (ok c))
        × Finished ds c
  execute_ends entry ds fuel plans found le =
      let us : List ℕ = all_ids graph.sorted_dependency_chains in
      let areplans : ArePlans us graph =
        all_ids-plans us graph.sorted_dependency_chains plans (λ k m. m) in
      let h : History = record { edges = []; finished = [] } in
      let (c0, run, e, p, there, stored) =
        enqueue_source-Enqueued us [] graph areplans entry ds (new_context {V = V}) h
          (new_context-IsOpen us) found in
      let (ready, c1, run1, o1, p1, a1, g1, q1, r1) =
        get_ready_to_execute-IsOpen us c0 e.history e.opened p in
      let (c2, end, x) =
        execute_loop-Ended us behaviour graph areplans fuel ready c1 e.history o1 a1 p1 q1
          (omega (arith, unfinished-length us e.history.finished, le)) in
      let g = Grows-trans g1 x.grows in
      (
        c2,
        execute-run fuel entry ready c0 c1 run run1 ∙ end,
        record {
          entry =
              All-imp _ _
                (λ d m.
                  all_resolved us c2 x.history x.opened x.all_done (chain_id d) d
                    (g.chains (chain_id d) d m))
                ds (stored refl);
          enqueued = known_resolved us c2 x.history x.opened x.all_done;
        },
      )

  -- More fuel gives the same.
  execute_loop-suc :
      (fuel : ℕ) (ds : List DependencyChain) (c : ExecutionContext V)
      (r : Result (ExecutionContext V))
      → execute_loop behaviour graph fuel ds c ≡ some r
      → execute_loop behaviour graph (suc fuel) ds c ≡ some r
  unfolding execute_loop
  execute_loop-suc fuel [] c r e = e
  execute_loop-suc zero (d ∷ ds) c r e = cc
  execute_loop-suc (suc fuel) (d ∷ ds) c r e =
      elim (Result-cases
        (run_chains behaviour graph (d ∷ ds) c >>= λ c'. get_ready_to_execute c')) [
          | inl (next, run) ↦
              let e' = rw (execute_loop, run) at e in
              rw (execute_loop, run) (execute_loop-suc fuel next.0 next.1 r e')
          | inr (x, failed) ↦
              let e' = rw (execute_loop, failed) at e in rw (execute_loop, failed) e'
        ]

  execute_loop-add :
      (k fuel : ℕ) (ds : List DependencyChain) (c : ExecutionContext V)
      (r : Result (ExecutionContext V))
      → execute_loop behaviour graph fuel ds c ≡ some r
      → execute_loop behaviour graph (k + fuel) ds c ≡ some r
  execute_loop-add zero fuel ds c r e = let same : 0 + fuel ≡ fuel = omega arith in rw same e
  execute_loop-add (suc k) fuel ds c r e =
      let same : suc k + fuel ≡ suc (k + fuel) = omega arith in
      rw same (execute_loop-suc (k + fuel) ds c r (execute_loop-add k fuel ds c r e))

  execute-add :
      (k fuel : ℕ) (entry : String) (r : Result (ExecutionContext V))
      → execute behaviour graph fuel entry ≡ some r
      → execute behaviour graph (k + fuel) entry ≡ some r
  unfolding execute
  execute-add k fuel entry r e =
      let (c, q) = enqueue_source graph entry (new_context {V = V}) in
      elim (Result-cases (q >>= λ u. get_ready_to_execute c)) [
        | inl (next, run) ↦
            let e' = rw (execute, run) at e in
            rw (execute, run) (execute_loop-add k fuel next.0 next.1 r e')
        | inr (x, failed) ↦ let e' = rw (execute, failed) at e in rw (execute, failed) e'
      ]

module _ {V : Type 0} (behaviour : Behaviour V) (sorted_sources sources : List Source)
    (graph : ExecutionGraph) (compiled : compile_execution_graph sorted_sources sources ≡ ok graph)
    (entry : String) (here : elem entry (paths (sorted_sources ++ sources)) ≡ true) where
  -- `execute` of a compiled graph from a source that it was compiled from comes to its end without an
  -- exception, whatever the nodes do: some context is what it gives for every fuel of at least the
  -- number of chains of the graph.
  pub execute-terminates :
      (c : ExecutionContext V) × ((fuel : ℕ)
        → length (all_ids graph.sorted_dependency_chains) ≤ fuel
        → execute behaviour graph fuel entry ≡ some (ok c))
  execute-terminates =
      let plans = compile_execution_graph-IsPlan sorted_sources sources graph compiled in
      let there =
        compile_execution_graph-contains sorted_sources sources graph compiled entry here in
      elim (Option-cases (get entry graph.sorted_dependency_chains)) [
        | inl missing ↦ absurd (ground (arith, there, missing))
        | inr (ds, found) ↦
            let bound : ℕ = length (all_ids graph.sorted_dependency_chains) in
            let (c, run, x) =
              execute_ends behaviour graph entry ds bound plans found (omega arith) in
            (
              c,
              λ fuel le.
                  let same : fuel ≡ (fuel - bound) + bound = omega (arith, le) in
                  rw same (execute-add behaviour graph (fuel - bound) bound entry (ok c) run),
            )
      ]

  -- When `execute` of a compiled graph gives a context, every chain of the entry point has come to
  -- its value or failure, and so has every chain that was enqueued on the way.
  pub execute-Finished :
      (fuel : ℕ) (c : ExecutionContext V) (ds : List DependencyChain)
      → execute behaviour graph fuel entry ≡ some (ok c)
      → get entry graph.sorted_dependency_chains ≡ some ds
      → Finished ds c
  execute-Finished fuel c ds run found =
      let plans = compile_execution_graph-IsPlan sorted_sources sources graph compiled in
      let bound : ℕ = length (all_ids graph.sorted_dependency_chains) in
      let (c', run', x) =
        execute_ends behaviour graph entry ds (bound + fuel) plans found (omega arith) in
      let more = execute-add behaviour graph bound fuel entry (ok c) run in
      let both : ◌≡◌ {A = Option (Result (ExecutionContext V))} (some (ok c')) (some (ok c)) =
        sym run' ∙ more in
      let same : c' ≡ c = ground arith in subst (Finished ds) same x
