-- ===== src/Executor/Sources.antt =====
-- `enqueue_source` never raises for a source of a compiled graph.
use trust_and_safety_demo.Base.{
  ℕ, ◌≡◌, refl, sym, subst, ◌∙◌, inl, inr, true, false, none, some, List, [], ◌∷◌, String,
  string_eq, nat_eq, Result, ok, err, key_error, Option-cases, All, All-imp, elem,
}
use trust_and_safety_demo.Base.Dict.{get, contains, All-get}
use trust_and_safety_demo.Graph.Defs.{DependencyChain, chain_id, ExecutionGraph}
use trust_and_safety_demo.Graph.Compiling.{IsPlan}
use trust_and_safety_demo.Sorter.Defs.{prepare}
use trust_and_safety_demo.Sorter.Entries.{AllAt}
use trust_and_safety_demo.Sorter.Calls.{History}
use trust_and_safety_demo.Sorter.Living.{prepare-IsLive}
use trust_and_safety_demo.Executor.Defs.{
  ExecutionContext, enqueue_chains, enqueue_source, enqueue_sources,
}
use trust_and_safety_demo.Executor.Opening.{Enqueued, Grows-refl, Grows-trans, IsOpen}
use trust_and_safety_demo.Executor.Enqueuing.{enqueue_chains-Enqueued}

-- The plans of a graph, whose identities are among `us`.
abbrev pub ArePlans : List ℕ → ExecutionGraph → Type 0
ArePlans us graph =
    All (λ p. IsPlan p.1 × All (λ d. elem (chain_id d) us ≡ true) p.1)
      graph.sorted_dependency_chains

missing_source :
    {V : Type 0} (graph : ExecutionGraph) (path : String) (c : ExecutionContext V)
    → get path graph.sorted_dependency_chains ≡ none
    → enqueue_source graph path c ≡ (c, err key_error)
unfolding enqueue_source
missing_source graph path c e = rw (enqueue_source, e) refl

found_source :
    {V : Type 0} (graph : ExecutionGraph) (path : String) (ds : List DependencyChain)
    (c c1 : ExecutionContext V)
    → get path graph.sorted_dependency_chains ≡ some ds
    → enqueue_chains ds c ≡ (c1, ok tt)
    → enqueue_source graph path c
      ≡ (record c1 { dependency_dag = prepare c1.dependency_dag }, ok tt)
unfolding enqueue_source
found_source graph path ds c c1 e run = rw (enqueue_source, e, run) (rw run refl)

next_sources :
    {V : Type 0} (graph : ExecutionGraph) (path : String) (paths : List String)
    (c c1 c2 : ExecutionContext V) (r : Result (Unit {0}))
    → enqueue_source graph path c ≡ (c1, ok tt)
    → enqueue_sources graph paths c1 ≡ (c2, r)
    → enqueue_sources graph (path ∷ paths) c ≡ (c2, r)
unfolding enqueue_sources
next_sources graph path paths c c1 c2 r run runs = rw (enqueue_sources, run) (rw run runs)

no_sources :
    {V : Type 0} (graph : ExecutionGraph) (path : String) (paths : List String)
    (c : ExecutionContext V)
    → get path graph.sorted_dependency_chains ≡ none
    → enqueue_sources graph (path ∷ paths) c ≡ (c, err key_error)
unfolding enqueue_sources
no_sources graph path paths c e =
    let missing = missing_source graph path c e in rw (enqueue_sources, missing) (rw missing refl)

module _ {V : Type 0} (us outs : List ℕ) (graph : ExecutionGraph) (plans : ArePlans us graph) where
  prepare-IsOpen :
      (c : ExecutionContext V) (h : History)
      → IsOpen us outs c h
      → Enqueued us outs h c (record c { dependency_dag = prepare c.dependency_dag })
        × ((prepare c.dependency_dag).needs_prepare ≡ false)
  prepare-IsOpen c h o =
      let (live, prepared, same) = prepare-IsLive us outs c.dependency_dag h o.live in
      (
        record {
          history = h;
          opened = record {
            live = live;
            named = o.named;
            known = subst (AllAt (λ p i. contains p c.chain_by_id ≡ true)) (sym same) o.known;
            added = λ k e. rw same (o.added k e);
            resolved = o.resolved;
            declared = o.declared;
          };
          same = refl;
          grows = record { chains = λ k d e. e; nodes = λ k e. rw same e };
        },
        prepared,
      )

  -- A source that the graph has is enqueued without an exception.
  pub enqueue_source-Enqueued :
      (path : String) (ds : List DependencyChain) (c : ExecutionContext V) (h : History)
      → IsOpen us outs c h
      → get path graph.sorted_dependency_chains ≡ some ds
      → (c' : ExecutionContext V) × (enqueue_source graph path c ≡ (c', ok tt))
        × Enqueued us outs h c c'
        × (c'.dependency_dag.needs_prepare ≡ false)
        × All (λ d. contains (chain_id d) c'.dependency_dag.node2info ≡ true) ds
        × (c.chain_by_id ≡ [] → All (λ d. get (chain_id d) c'.chain_by_id ≡ some d) ds)
  unfolding enqueue_source IsPlan get
  enqueue_source-Enqueued path ds c h o found =
      let plan =
        All-get (λ p. IsPlan p × All (λ d. elem (chain_id d) us ≡ true) p) path
          graph.sorted_dependency_chains plans found in
      let (c1, run, e1, there, s1) =
        enqueue_chains-Enqueued us outs [] ds c h o tt plan.0.0 plan.0.1 plan.1 in
      let (e2, prepared) = prepare-IsOpen c1 e1.history e1.opened in
      (
        record c1 { dependency_dag = prepare c1.dependency_dag },
        found_source graph path ds c c1 found run,
        record {
          history = e2.history;
          opened = e2.opened;
          same = e2.same ∙ e1.same;
          grows = Grows-trans e1.grows e2.grows;
        },
        prepared,
        All-imp _ _ (λ d m. e2.grows.nodes (chain_id d) m) ds there,
        λ nil. s1 (λ k e. absurd (let e' = rw nil at e in cc)),
      )

  -- Sources enqueued while a node runs: a source that the graph does not have raises.
  pub enqueue_sources-Enqueued :
      (paths : List String) (c : ExecutionContext V) (h : History)
      → IsOpen us outs c h
      → c.dependency_dag.needs_prepare ≡ false
      → (c' : ExecutionContext V) × (r : Result (Unit {0})) × (enqueue_sources graph paths c
          ≡ (c', r))
        × Enqueued us outs h c c'
        × (c'.dependency_dag.needs_prepare ≡ false)
  unfolding enqueue_sources
  enqueue_sources-Enqueued [] c h o p =
      (c, ok tt, refl, record { history = h; opened = o; same = refl; grows = Grows-refl c }, p)
  enqueue_sources-Enqueued (path ∷ paths) c h o p =
      elim (Option-cases (get path graph.sorted_dependency_chains)) [
        | inl missing ↦ (
          c,
          err key_error,
          no_sources graph path paths c missing,
          record { history = h; opened = o; same = refl; grows = Grows-refl c },
          p,
        )
        | inr (ds, found) ↦
            let (c1, run, e1, p1, there, s1) = enqueue_source-Enqueued path ds c h o found in
            let (c2, r, runs, e2, p2) = enqueue_sources-Enqueued paths c1 e1.history e1.opened p1 in
            (
              c2,
              r,
              next_sources graph path paths c c1 c2 r run runs,
              record {
                history = e2.history;
                opened = e2.opened;
                same = e2.same ∙ e1.same;
                grows = Grows-trans e1.grows e2.grows;
              },
              p2,
            )
      ]
