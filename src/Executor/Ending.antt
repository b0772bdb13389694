-- ===== src/Executor/Ending.antt =====
-- The loop of the executor ends, and then every node that was enqueued is done.
use trust_and_safety_demo.Base.{
  unfinished, ℕ, zero, suc, ◌≤◌, ◌≡◌, refl, sym, subst, ◌∙◌, inl, inr, true, false, some, List, [],
  ◌∷◌, ◌++◌, String, string_eq, nat_eq, ok, Option-cases, beq_refl, All, All-imp, elem, elem-append,
  arith,
}
use trust_and_safety_demo.Base.Dict.{Dict, get, contains}
use trust_and_safety_demo.Graph.Defs.{
  DependencyChain, dependent_ids, chain_id, ExecutionGraph, lookup,
}
use trust_and_safety_demo.Graph.Sorting.{ids}
use trust_and_safety_demo.Graph.Compiling.{IsPlan}
use trust_and_safety_demo.Sorter.Defs.{pos}
use trust_and_safety_demo.Sorter.Entries.{AllAt}
use trust_and_safety_demo.Sorter.Run.{Reach-Inv, get_ready-after_predecessors}
use trust_and_safety_demo.Sorter.Calls.{History, start}
use trust_and_safety_demo.Sorter.Living.{IsLive, status-contains}
use trust_and_safety_demo.Sorter.Handing.{get_ready-IsLive}
use trust_and_safety_demo.Sorter.Progress.{all_finished}
use trust_and_safety_demo.Executor.Defs.{
  ExecutionContext, new_context, Behaviour, chains_of, get_ready_to_execute, run_chains,
  execute_loop,
}
use trust_and_safety_demo.Executor.Opening.{
  IsOpen, Awaits, Grows, Grows-refl, Grows-trans, known_contains,
}
use trust_and_safety_demo.Executor.Sources.{ArePlans}
use trust_and_safety_demo.Executor.Running.{AreStored, run_chains-Ran, known_same}

chains_of-ids :
    (byid : Dict ℕ DependencyChain) (ns : List ℕ)
    → ((k : ℕ) (d : DependencyChain) → get k byid ≡ some d → chain_id d ≡ k)
    → All (λ n. contains n byid ≡ true) ns
    → (ds : List DependencyChain) × (chains_of byid ns ≡ ok ds)
      × (ids ds ≡ ns)
      × All (λ d. get (chain_id d) byid ≡ some d) ds
unfolding chains_of lookup
chains_of-ids byid [] named h = ([], refl, refl, tt)
chains_of-ids byid (n ∷ ns) named h =
    let (ds, run, same, stored) = chains_of-ids byid ns named h.1 in
    elim (Option-cases (get n byid)) [
      | inl missing ↦ absurd (ground (arith, h.0))
      | inr (d, found) ↦
          let here : chain_id d ≡ n = named n d found in
          (d ∷ ds, rw (found, run) refl, rw (here, same) refl, (rw here found, stored))
    ]

elem-ids :
    (ds : List DependencyChain) (us : List ℕ)
    → ((k : ℕ) → elem k (ids ds) ≡ true → elem k us ≡ true)
    → All (λ d. elem (chain_id d) us ≡ true) ds
elem-ids [] us f = tt
elem-ids (d ∷ ds) us f = (
  f (chain_id d) (rw (beq_refl (chain_id d)) refl),
  elem-ids ds us (λ k m. f k (rw m (ground arith))),
)

-- These nodes are done.
abbrev pub AreDone : History → List ℕ → Type 0
AreDone h ks = All (λ k. elem k h.finished ≡ true) ks

-- What a chain that is ready depends on is done.
ready_done :
    {V : Type 0} (us : List ℕ) (c : ExecutionContext V) (h : History)
    → IsOpen us [] c h
    → (ready : List ℕ) → All (Awaits ready h.finished) h.edges
    → (ds : List DependencyChain) → All (λ d. get (chain_id d) c.chain_by_id ≡ some d) ds
    → All (λ d. elem (chain_id d) ready ≡ true) ds
    → All (λ d. AreDone h (dependent_ids d)) ds
ready_done us c h o ready w [] a m = tt
ready_done us c h o ready w (d ∷ ds) a m = (
  All-imp _ _ (λ k f. f m.0) (dependent_ids d) (o.declared (chain_id d) d a.0 ready h.finished w),
  ready_done us c h o ready w ds a.1 m.1,
)

module _ {V : Type 0} (us : List ℕ) where
  -- The nodes that are ready have their chains.
  pub get_ready_to_execute-IsOpen :
      (c : ExecutionContext V) (h : History)
      → IsOpen us [] c h
      → c.dependency_dag.needs_prepare ≡ false
      → (ds : List DependencyChain) × (c' : ExecutionContext V) × (get_ready_to_execute c
          ≡ ok (ds, c'))
        × IsOpen us (ids ds) c' h
        × (c'.dependency_dag.needs_prepare ≡ false)
        × All (λ d. get (chain_id d) c'.chain_by_id ≡ some d) ds
        × Grows c c'
        × (c'.dependency_dag.ready_nodes ≡ [])
        × All (λ d. AreDone h (dependent_ids d)) ds
  unfolding get_ready_to_execute
  get_ready_to_execute-IsOpen c h o p =
      let (s', run, live, prepared, same, nothing) =
        get_ready-IsLive us c.dependency_dag h o.live p in
      let known = known_same c.dependency_dag.node2info s'.node2info c.chain_by_id o.known same in
      let (ds, runs, ids_eq, stored) =
        chains_of-ids c.chain_by_id c.dependency_dag.ready_nodes o.named (
          All-imp _ _
            (λ n z.
              known_contains c.dependency_dag.node2info c.chain_by_id o.known n
                (status-contains n c.dependency_dag.node2info (pos 0) z))
            c.dependency_dag.ready_nodes (Reach-Inv c.dependency_dag h o.live.reach).sound.ready) in
      (
        ds,
        record c { dependency_dag = s' },
        rw (run, runs) refl,
        record {
          live = subst (λ l. IsLive us l s' h) (sym ids_eq) live;
          named = o.named;
          known = known;
          added = λ k e. rw (same k) (o.added k e);
          resolved = o.resolved;
          declared = o.declared;
        },
        prepared,
        stored,
        record { chains = λ k d e. e; nodes = λ k e. rw (same k) e },
        nothing,
        ready_done us c h o c.dependency_dag.ready_nodes
            (get_ready-after_predecessors c.dependency_dag s' h c.dependency_dag.ready_nodes
              o.live.reach run)
            ds stored
            (elem-ids ds c.dependency_dag.ready_nodes
              (λ k m. subst (λ l. elem k l ≡ true) ids_eq m)),
      )

  -- Where the loop ends: all that is known is done.
  pub record Ended (h : History) (c c' : ExecutionContext V) : Type 0 where
    pub history : History
    pub opened : IsOpen us [] c' history
    pub grows : Grows c c'
    pub all_done :
        (k : ℕ) → contains k c'.dependency_dag.node2info ≡ true → elem k history.finished ≡ true

  module _ (behaviour : Behaviour V) (graph : ExecutionGraph) (plans : ArePlans us graph) where
    pub execute_loop-next :
        (fuel : ℕ) (d : DependencyChain) (ds ready : List DependencyChain)
        (c c1 c2 : ExecutionContext V)
        → run_chains behaviour graph (d ∷ ds) c ≡ ok c1
        → get_ready_to_execute c1 ≡ ok (ready, c2)
        → execute_loop behaviour graph (suc fuel) (d ∷ ds) c
          ≡ execute_loop behaviour graph fuel ready c2
    unfolding execute_loop
    execute_loop-next fuel d ds ready c c1 c2 e e' = rw (execute_loop, e, e') refl

    pub execute_loop-Ended :
        (fuel : ℕ) (ds : List DependencyChain) (c : ExecutionContext V) (h : History)
        → IsOpen us (ids ds) c h
        → AreStored us behaviour graph plans c ds
        → c.dependency_dag.needs_prepare ≡ false
        → c.dependency_dag.ready_nodes ≡ []
        → unfinished us h.finished ≤ fuel
        → (c' : ExecutionContext V) × (execute_loop behaviour graph fuel ds c ≡ some (ok c'))
          × Ended h c c'
    unfolding execute_loop
    execute_loop-Ended fuel [] c h o a p q le = (
      c,
      refl,
      record {
        history = h;
        opened = o;
        grows = Grows-refl c;
        all_done = all_finished us c.dependency_dag h o.live p q;
      },
    )
    execute_loop-Ended zero (d ∷ ds) c h o a p q le =
        let (c1, run, x) = run_chains-Ran us behaviour graph plans (d ∷ ds) c h o a p in
        let fewer = x.fewer in absurd (omega (arith, fewer, le))
    execute_loop-Ended (suc fuel) (d ∷ ds) c h o a p q le =
        let (c1, run, x) = run_chains-Ran us behaviour graph plans (d ∷ ds) c h o a p in
        let fewer = x.fewer in
        let (ready, c2, run', o2, p2, a2, g2, q2, r2) =
          get_ready_to_execute-IsOpen c1 x.history x.opened x.prepared in
        let (c3, end, y) =
          execute_loop-Ended fuel ready c2 x.history o2 a2 p2 q2 (omega (arith, fewer, le)) in
        (
          c3,
          execute_loop-next fuel d ds ready c c1 c2 run run' ∙ end,
          record {
            history = y.history;
            opened = y.opened;
            grows = Grows-trans x.grows (Grows-trans g2 y.grows);
            all_done = y.all_done;
          },
        )

-- The identities of all the chains of a graph.
unfoldable pub all_ids : Dict String (List DependencyChain) → List ℕ
all_ids [] = []
all_ids ((path, ds) ∷ plans) = ids ds ++ all_ids plans

pub all_ids-plans :
    (us : List ℕ) (plans : Dict String (List DependencyChain))
    → All (λ p. IsPlan p.1) plans
    → ((k : ℕ) → elem k (all_ids plans) ≡ true → elem k us ≡ true)
    → All (λ p. IsPlan p.1 × All (λ d. elem (chain_id d) us ≡ true) p.1) plans
unfolding all_ids
all_ids-plans us [] a f = tt
all_ids-plans us ((path, ds) ∷ plans) a f = (
  (a.0, elem-ids ds us (λ k m. f k (rw (elem-append k (ids ds) (all_ids plans), m) refl))),
  all_ids-plans us plans a.1
      (λ k m. f k (rw (elem-append k (ids ds) (all_ids plans), m) (ground arith))),
)

pub new_context-IsOpen :
    {V : Type 0} (us : List ℕ)
    → IsOpen us [] (new_context {V = V}) (record { edges = []; finished = [] })
unfolding AllAt get
new_context-IsOpen us = record {
  live = record { reach = start; entries = λ p i e. cc; out = tt; distinct = tt; queued = λ p. cc };
  named = λ k d e. cc;
  known = λ p i e. cc;
  added = λ k e. cc;
  resolved = λ k d e g. cc;
  declared = λ k d e. cc;
}
