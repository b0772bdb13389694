-- ===== src/Executor/Running.antt =====
-- A round of the executor: the chains that are ready run and are done, without an exception.
use trust_and_safety_demo.Base.{
  unfinished, unfinished-lt, ℕ, ◌+◌, ◌≤◌, ◌≡◌, refl, sym, subst, ◌∙◌, inl, inr, true, false, Option,
  some, List, [], ◌∷◌, String, nat_eq, ◌==◌, Result, ok, Bool-cases, beq_refl, All, All-imp, elem,
  length, ap, arith,
}
use trust_and_safety_demo.Base.Dict.{Dict, get, put, get-put, contains}
use trust_and_safety_demo.Graph.Defs.{DependencyChain, chain_id, chain_node, ExecutionGraph}
use trust_and_safety_demo.Graph.Sorting.{ids}
use trust_and_safety_demo.Sorter.Defs.{
  NodeInfo, TopologicalSorter, node_out, is_done, done_one, done_loop, done,
}
use trust_and_safety_demo.Sorter.Adding.{status-some}
use trust_and_safety_demo.Sorter.Covering.{is_finished}
use trust_and_safety_demo.Sorter.Entries.{AllAt}
use trust_and_safety_demo.Sorter.Run.{Reach-Inv}
use trust_and_safety_demo.Sorter.Calls.{History}
use trust_and_safety_demo.Sorter.Living.{IsLive}
use trust_and_safety_demo.Sorter.Progress.{done_one-IsLive}
use trust_and_safety_demo.Executor.Defs.{
  ExecutionContext, Behaviour, set_resolved_value, enqueue_sources, run_chain, run_chains,
}
use trust_and_safety_demo.Executor.Opening.{
  IsOpen, known_contains, Grows, Grows-refl, Grows-trans, Enqueued, dag_known,
}
use trust_and_safety_demo.Executor.Sources.{ArePlans, enqueue_sources-Enqueued}

-- A node that is out is not done.
out-unfinished :
    (us outs : List ℕ) (k : ℕ) (s : TopologicalSorter) (h : History)
    → IsLive us (k ∷ outs) s h
    → elem k h.finished ≡ false
unfolding is_finished is_done
out-unfinished us outs k s h l =
    let (i, found, z) = status-some k s.node2info node_out l.out.0 in
    let none_done : is_finished (get k s.node2info) ≡ false = rw (found, is_finished, z) refl in
    sym ((Reach-Inv s h l.reach).finished k) ∙ none_done

done-one :
    (k : ℕ) (s s' : TopologicalSorter)
    → s.needs_prepare ≡ false
    → done_one k s ≡ ok s'
    → done (k ∷ []) s ≡ (s', ok tt)
unfolding done done_loop
done-one k s s' p e = rw (p, done_loop, e) refl

pub known_same :
    (d d' : Dict ℕ NodeInfo) (byid : Dict ℕ DependencyChain)
    → AllAt (λ p i. contains p byid ≡ true) d
    → ((k : ℕ) → contains k d' ≡ contains k d)
    → AllAt (λ p i. contains p byid ≡ true) d'
unfolding AllAt
known_same d d' byid a same p i e =
    let there : contains p d ≡ true = sym (same p) ∙ (rw e refl) in known_contains d byid a p there

module _ {V : Type 0} where
  resolved_run :
      (d : DependencyChain) (value : Option V) (c : ExecutionContext V) (s' : TopologicalSorter)
      → done (chain_id d ∷ []) c.dependency_dag ≡ (s', ok tt)
      → set_resolved_value d value c
        ≡ ok (record c {
          dependency_dag = s';
          resolved_node_values = put (chain_node d) value c.resolved_node_values;
        })
  unfolding set_resolved_value
  resolved_run d value c s' e = rw e refl

  pub set_resolved_value-IsOpen :
      (us outs : List ℕ) (d : DependencyChain) (value : Option V) (c : ExecutionContext V)
      (h : History)
      → IsOpen us (chain_id d ∷ outs) c h
      → get (chain_id d) c.chain_by_id ≡ some d
      → c.dependency_dag.needs_prepare ≡ false
      → (c' : ExecutionContext V) × (set_resolved_value d value c ≡ ok c')
        × IsOpen us outs c' (record h { finished = chain_id d ∷ h.finished })
        × (c'.dependency_dag.needs_prepare ≡ false)
        × Grows c c'
  set_resolved_value-IsOpen us outs d value c h o there p =
      let (s', run, live, prepared, same) =
        done_one-IsLive us outs (chain_id d) c.dependency_dag h o.live p in
      (
        record c {
          dependency_dag = s';
          resolved_node_values = put (chain_node d) value c.resolved_node_values;
        },
        resolved_run d value c s' (done-one (chain_id d) c.dependency_dag s' p run),
        record {
          live = live;
          named = o.named;
          known = known_same c.dependency_dag.node2info s'.node2info c.chain_by_id o.known same;
          added = λ k e. rw (same k) (o.added k e);
          resolved = λ k e f g. elim (Bool-cases (chain_id d == k)) [
            | inl here ↦
                let eq : chain_id d ≡ k = ground arith in
                let there' : get k c.chain_by_id ≡ some d = rw (← eq) there in
                let eq' : d ≡ e = ground arith in rw (get-put, ← eq', beq_refl (chain_node d)) refl
            | inr other ↦
                let old = o.resolved k e (rw other at f) g in rw get-put (ground (arith, old))
          ];
          declared = o.declared;
        },
        prepared,
        record { chains = λ k e g. g; nodes = λ k e. rw (same k) e },
      )

-- Running a chain changes the sorter only by what it enqueues.
module _ {V : Type 0} (us : List ℕ) (behaviour : Behaviour V) (graph : ExecutionGraph)
    (plans : ArePlans us graph) where
  pub run_chain-Enqueued :
      (outs : List ℕ) (d : DependencyChain) (c : ExecutionContext V) (h : History)
      → IsOpen us outs c h
      → c.dependency_dag.needs_prepare ≡ false
      → Enqueued us outs h c (run_chain behaviour graph d c).1
        × ((run_chain behaviour graph d c).1.dependency_dag.needs_prepare ≡ false)
  unfolding run_chain
  run_chain-Enqueued outs d c h o p =
      let sources : List String = (behaviour d c).0 in
      let (c1, r, runs, e1, p1) = enqueue_sources-Enqueued us outs graph plans sources c h o p in
      let e : Enqueued us outs h c (enqueue_sources graph sources c).0 =
        subst (λ (q : ExecutionContext V × Result (Unit {0})). Enqueued us outs h c q.0) (sym runs)
          e1 in
      let q : (enqueue_sources graph sources c).0.dependency_dag.needs_prepare ≡ false =
        subst
          (λ (q : ExecutionContext V × Result (Unit {0})). q.0.dependency_dag.needs_prepare ≡ false)
          (sym runs) p1 in
      let x = e.opened in
      (
        record {
          history = e.history;
          opened = record {
            live = x.live;
            named = x.named;
            known = x.known;
            added = x.added;
            resolved = x.resolved;
            declared = x.declared;
          };
          same = e.same;
          grows = record { chains = e.grows.chains; nodes = e.grows.nodes };
        },
        q,
      )

  -- The chains of a round are under their identities.
  abbrev pub AreStored : ExecutionContext V → List DependencyChain → Type 0
  AreStored c ds = All (λ d. get (chain_id d) c.chain_by_id ≡ some d) ds

  -- What a round leaves.
  pub record Ran (n : ℕ) (h : History) (c c' : ExecutionContext V) : Type 0 where
    pub history : History
    pub opened : IsOpen us [] c' history
    pub prepared : c'.dependency_dag.needs_prepare ≡ false
    pub fewer : unfinished us history.finished + n ≤ unfinished us h.finished
    pub grows : Grows c c'

  pub run_chains-Ran :
      (ds : List DependencyChain) (c : ExecutionContext V) (h : History)
      → IsOpen us (ids ds) c h
      → AreStored c ds
      → c.dependency_dag.needs_prepare ≡ false
      → (c' : ExecutionContext V) × (run_chains behaviour graph ds c ≡ ok c')
        × Ran (length ds) h c c'
  unfolding run_chains
  run_chains-Ran [] c h o a p = (
    c,
    refl,
    record { history = h; opened = o; prepared = p; fewer = omega arith; grows = Grows-refl c },
  )
  run_chains-Ran (d ∷ ds) c h o a p =
      let (e1, p1) = run_chain-Enqueued (chain_id d ∷ ids ds) d c h o p in
      let (value, c1) = run_chain behaviour graph d c in
      let (c2, run, o2, p2, g2) =
        set_resolved_value-IsOpen us (ids ds) d value c1 e1.history e1.opened
          (e1.grows.chains (chain_id d) d a.0) p1 in
      let g = Grows-trans e1.grows g2 in
      let (c3, runs, e3) =
        run_chains-Ran ds c2 (record e1.history { finished = chain_id d ∷ e1.history.finished }) o2
          (All-imp _ _ (λ x m. g.chains (chain_id x) x m) ds a.1) p2 in
      let there : contains (chain_id d) c.chain_by_id ≡ true = rw a.0 refl in
      let known =
        dag_known us (ids (d ∷ ds)) c.dependency_dag h o.live (chain_id d)
          (o.added (chain_id d) there) in
      let new : elem (chain_id d) e1.history.finished ≡ false =
        out-unfinished us (ids ds) (chain_id d) c1.dependency_dag e1.history e1.opened.live in
      let one = unfinished-lt us e1.history.finished (chain_id d) known new in
      (
        c3,
        rw run runs,
        record {
          history = e3.history;
          opened = e3.opened;
          prepared = e3.prepared;
          fewer =
              let same = ap (unfinished us) e1.same in
              let rest = e3.fewer in omega (arith, rest, one, same);
          grows = Grows-trans g e3.grows;
        },
      )
