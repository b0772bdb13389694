-- ===== src/Executor/Enqueuing.antt =====
-- Enqueuing the chains of a plan never raises, and keeps what was known.
use trust_and_safety_demo.Base.{
  ℕ, ◌<◌, ◌≡◌, refl, sym, subst, ◌∙◌, inl, inr, true, false, some, List, [], ◌∷◌, ◌++◌, map,
  string_eq, nat_eq, ◌==◌, ok, Bool-cases, beq_refl, All, All-imp, All-append, All-elem, elem-All,
  elem, elem-append, arith,
}
use trust_and_safety_demo.Base.Dict.{get, put, get-put, contains}
use trust_and_safety_demo.Graph.Defs.{DependencyChain, chain_id, chain_node, dependent_ids}
use trust_and_safety_demo.Graph.Sorting.{IsInOrder}
use trust_and_safety_demo.Graph.Compiling.{IsBuilt}
use trust_and_safety_demo.Sorter.Defs.{TopologicalSorter, add, already_added}
use trust_and_safety_demo.Sorter.Entries.{AllAt, add-AllAt}
use trust_and_safety_demo.Sorter.Calls.{History}
use trust_and_safety_demo.Sorter.Living.{add-IsLive}
use trust_and_safety_demo.Executor.Defs.{ExecutionContext, enqueue_chain, enqueue_chains}
use trust_and_safety_demo.Executor.Opening.{
  put_declared, Enqueued, Grows-refl, Grows-trans, IsBuilt-older, IsOpen, Stores, contains-put,
  dag_known, finished_known, known-Allows, known_contains, known_grows, put_kept, put_named,
}

-- The dependencies of a chain are older, and among the chains of the graph.
older :
    {V : Type 0} (us outs : List ℕ) (d : DependencyChain) (c : ExecutionContext V) (h : History)
    → IsOpen us outs c h
    → IsBuilt d
    → All (λ k. contains k c.dependency_dag.node2info ≡ true) (dependent_ids d)
    → All (λ k. (elem k us ≡ true) × (k < chain_id d)) (dependent_ids d)
older us outs d c h o b a =
    All-elem (λ k. (elem k us ≡ true) × (k < chain_id d)) (dependent_ids d)
      (λ k m. (
        dag_known us outs c.dependency_dag h o.live k (elem-All _ (dependent_ids d) a k m),
        elem-All _ (dependent_ids d) (IsBuilt-older d b) k m,
      ))

-- The context after a chain was added, which the sorter `dag` knows.
module _ {V : Type 0} (us outs : List ℕ) (d : DependencyChain) (c : ExecutionContext V)
    (h : History) (o : IsOpen us outs c h) (dag : TopologicalSorter) where
  abbrev chain_added : ExecutionContext V
  chain_added = record c { dependency_dag = dag; chain_by_id = put (chain_id d) d c.chain_by_id }

  known_after :
      All (λ k. contains k c.dependency_dag.node2info ≡ true) (dependent_ids d)
      → add (chain_id d) (dependent_ids d) c.dependency_dag ≡ ok dag
      → AllAt (λ p i. contains p chain_added.chain_by_id ≡ true) dag.node2info
  known_after a run =
      let byid = chain_added.chain_by_id in
      let grown = contains-put d c.chain_by_id in
      let known : AllAt (λ p i. contains p byid ≡ true) c.dependency_dag.node2info =
        known_grows c.dependency_dag.node2info c.chain_by_id byid o.known
          (λ k e. ground (arith, grown k)) in
      add-AllAt (λ p i. contains p byid ≡ true) (chain_id d) (dependent_ids d) c.dependency_dag dag
        known
        (known-Allows byid (chain_id d) (dependent_ids d)
          (rw (grown (chain_id d), beq_refl (chain_id d)) refl)
          (All-imp _ _ (λ k e. known_contains c.dependency_dag.node2info byid known k e)
            (dependent_ids d) a))
        run

  added_after :
      contains (chain_id d) dag.node2info ≡ true
      → ((k : ℕ) → contains k c.dependency_dag.node2info ≡ true → contains k dag.node2info ≡ true)
      → (k : ℕ) → contains k chain_added.chain_by_id ≡ true
      → contains k dag.node2info ≡ true
  added_after there more k e = elim (Bool-cases (chain_id d == k)) [
    | inl same ↦
        let eq : chain_id d ≡ k = ground arith in
        subst (λ m. contains m dag.node2info ≡ true) eq there
    | inr other ↦ more k (o.added k (ground (arith, contains-put d c.chain_by_id k, e, other)))
  ]

  resolved_after :
      contains (chain_id d) c.dependency_dag.node2info ≡ false
      → (k : ℕ) (e : DependencyChain) → elem k h.finished ≡ true
      → get k chain_added.chain_by_id ≡ some e
      → contains (chain_node e) c.resolved_node_values ≡ true
  resolved_after n k e f g = elim (Bool-cases (chain_id d == k)) [
    | inl same ↦
        let eq : chain_id d ≡ k = ground arith in
        let known_k = finished_known us outs c h o k f in
        let n' : contains k c.dependency_dag.node2info ≡ false = rw (← eq) n in
        absurd (ground (arith, known_k, n'))
    | inr other ↦ o.resolved k e f (rw (get-put, other) at g)
  ]

module _ {V : Type 0} (us outs : List ℕ) where
  -- A chain whose dependencies are known.
  enqueue_chain-Enqueued :
      (d : DependencyChain) (c : ExecutionContext V) (h : History)
      → IsOpen us outs c h
      → IsBuilt d
      → elem (chain_id d) us ≡ true
      → All (λ k. contains k c.dependency_dag.node2info ≡ true) (dependent_ids d)
      → (c' : ExecutionContext V) × (enqueue_chain d c ≡ ok c')
        × Enqueued us outs h c c'
        × (contains (chain_id d) c'.dependency_dag.node2info ≡ true)
        × Stores d c c'
  unfolding enqueue_chain already_added
  enqueue_chain-Enqueued d c h o b u a =
      elim (Bool-cases (already_added (chain_id d) c.dependency_dag)) [
        | inl old ↦
            let stored =
              known_contains c.dependency_dag.node2info c.chain_by_id o.known (chain_id d) old in
            (
              c,
              rw old refl,
              record { history = h; opened = o; same = refl; grows = Grows-refl c },
              old,
              record {
                stored = λ n. absurd (ground (arith, n, stored));
                keys = λ k e. rw e (ground arith);
              },
            )
        | inr new ↦
            let fresh : contains (chain_id d) c.chain_by_id ≡ false =
              ground (arith, new, o.added (chain_id d)) in
            let (dag, run, live, kept) =
              add-IsLive us outs (chain_id d) (dependent_ids d) c.dependency_dag h o.live new u
                (older us outs d c h o b a) in
            (
              chain_added us outs d c h o dag,
              rw (new, run) refl,
              record {
                history = record h {
                  edges = h.edges ++ map (λ p. (p, chain_id d)) (dependent_ids d);
                };
                opened = record {
                  live = live;
                  named = put_named d c.chain_by_id o.named;
                  known = known_after us outs d c h o dag a run;
                  added = added_after us outs d c h o dag kept.0 kept.1;
                  resolved = resolved_after us outs d c h o dag new;
                  declared = put_declared d c.chain_by_id h.edges o.declared;
                };
                same = refl;
                grows = record { chains = put_kept d c.chain_by_id fresh; nodes = kept.1 };
              },
              kept.0,
              record {
                stored = λ m. rw (get-put, beq_refl (chain_id d)) refl;
                keys = λ k e. sym (contains-put d c.chain_by_id k) ∙ e;
              },
            )
      ]

  -- The chains of a plan, of which `before` were enqueued.
  pub enqueue_chains-Enqueued :
      (before : List ℕ) (ds : List DependencyChain) (c : ExecutionContext V) (h : History)
      → IsOpen us outs c h
      → All (λ k. contains k c.dependency_dag.node2info ≡ true) before
      → IsInOrder before ds
      → All IsBuilt ds
      → All (λ d. elem (chain_id d) us ≡ true) ds
      → (c' : ExecutionContext V) × (enqueue_chains ds c ≡ (c', ok tt))
        × Enqueued us outs h c c'
        × All (λ d. contains (chain_id d) c'.dependency_dag.node2info ≡ true) ds
        × (((k : ℕ) → contains k c.chain_by_id ≡ true → elem k before ≡ true)
            → All (λ d. get (chain_id d) c'.chain_by_id ≡ some d) ds)
  unfolding enqueue_chains
  enqueue_chains-Enqueued before [] c h o a i b u =
      (c, refl, record { history = h; opened = o; same = refl; grows = Grows-refl c }, tt, λ f. tt)
  enqueue_chains-Enqueued before (d ∷ ds) c h o a i b u =
      let (c1, run, e1, there, s1) =
        enqueue_chain-Enqueued d c h o b.0 u.0
          (All-imp _ _ (λ k m. elem-All _ before a k m) (dependent_ids d) i.1) in
      let (c2, runs, e2, rest, s2) =
        enqueue_chains-Enqueued (before ++ chain_id d ∷ []) ds c1 e1.history e1.opened
          (All-append _ before (chain_id d ∷ []) (All-imp _ _ (λ k m. e1.grows.nodes k m) before a)
            (there, tt))
          i.2 b.1 u.1 in
      (
        c2,
        rw (enqueue_chains, run) runs,
        record {
          history = e2.history;
          opened = e2.opened;
          same = e2.same ∙ e1.same;
          grows = Grows-trans e1.grows e2.grows;
        },
        (e2.grows.nodes (chain_id d) there, rest),
        λ f. (
          e2.grows.chains (chain_id d) d (
              s1.stored (elim (Bool-cases (contains (chain_id d) c.chain_by_id)) [
                | inl old ↦ absurd (ground (arith, f (chain_id d) old, i.0))
                | inr new ↦ new
              ])),
          s2 (λ k e.
              rw (elem-append k before (chain_id d ∷ [])) (ground (arith, s1.keys k e, f k))),
        ),
      )
