-- ===== src/Executor/Opening.antt =====
-- The invariant of a context, and the lemmas on what it stores.
use trust_and_safety_demo.Base.{
  ℕ, ◌<◌, ◌≡◌, refl, subst, inl, inr, true, false, ◌||◌, some, List, [], ◌∷◌, ◌++◌, map, string_eq,
  nat_eq, ◌==◌, Bool-cases, Option-cases, All, All-imp, elem, arith,
}
use trust_and_safety_demo.Base.Dict.{Dict, get, put, get-put, contains}
use trust_and_safety_demo.Graph.Defs.{
  DependencyChain, dependency_chain, Chains, no_chains, ◌⨾◌, chain_id, chain_node, ids_of,
  dependent_ids,
}
use trust_and_safety_demo.Graph.Compiling.{IsBuilt, AreBuilt}
use trust_and_safety_demo.Sorter.Defs.{NodeInfo, TopologicalSorter}
use trust_and_safety_demo.Sorter.Covering.{is_finished}
use trust_and_safety_demo.Sorter.Entries.{AllAt, Allows}
use trust_and_safety_demo.Sorter.Run.{Reach-Inv}
use trust_and_safety_demo.Sorter.Calls.{History}
use trust_and_safety_demo.Sorter.Living.{IsLive}
use trust_and_safety_demo.Executor.Defs.{ExecutionContext}

-- The dependencies of a chain that is built are older.
AreBuilt-older : (n : ℕ) (cs : Chains) → AreBuilt n cs → All (λ d. d < n) (ids_of cs)
unfolding AreBuilt ids_of
AreBuilt-older n no_chains b = tt
AreBuilt-older n (c ⨾ cs) b = (b.0, AreBuilt-older n cs b.2)

pub IsBuilt-older : (c : DependencyChain) → IsBuilt c → All (λ d. d < chain_id c) (dependent_ids c)
unfolding IsBuilt dependent_ids chain_id
IsBuilt-older (dependency_chain n node deps) b = AreBuilt-older n deps b

pub All-split : (P : ℕ × ℕ → Type 0) (xs ys : List (ℕ × ℕ)) → All P (xs ++ ys) → All P xs × All P ys
All-split P [] ys h = (tt, h)
All-split P (x ∷ xs) ys h = let rest = All-split P xs ys h.1 in ((h.0, rest.0), rest.1)

pub All-edges :
    (P : ℕ × ℕ → Type 0) (node : ℕ) (preds : List ℕ)
    → All P (map (λ p. (p, node)) preds)
    → All (λ p. P (p, node)) preds
All-edges P node [] h = tt
All-edges P node (p ∷ preds) h = (h.0, All-edges P node preds h.1)

-- If the node of an edge is among `ready`, then its predecessor is among `finished`.
abbrev pub Awaits : List ℕ → List ℕ → ℕ × ℕ → Type 0
Awaits ready finished e = elem e.1 ready ≡ true → elem e.0 finished ≡ true

-- The context of a run: each chain is under its identity, the sorter knows just these identities,
-- and the nodes of those that are done have their values.
pub record IsOpen {V : Type 0} (us outs : List ℕ) (c : ExecutionContext V) (h : History)
    : Type 0 where
  pub live : IsLive us outs c.dependency_dag h
  pub named : (k : ℕ) (d : DependencyChain) → get k c.chain_by_id ≡ some d → chain_id d ≡ k
  pub known : AllAt (λ p i. contains p c.chain_by_id ≡ true) c.dependency_dag.node2info
  pub added :
      (k : ℕ) → contains k c.chain_by_id ≡ true → contains k c.dependency_dag.node2info ≡ true
  pub resolved :
      (k : ℕ) (d : DependencyChain)
      → elem k h.finished ≡ true
      → get k c.chain_by_id ≡ some d
      → contains (chain_node d) c.resolved_node_values ≡ true
  pub declared :
      (k : ℕ) (d : DependencyChain)
      → get k c.chain_by_id ≡ some d
      → (ready finished : List ℕ) → All (Awaits ready finished) h.edges
      → All (λ p. Awaits ready finished (p, k)) (dependent_ids d)

-- What enqueuing keeps.
pub record Grows {V : Type 0} (c c' : ExecutionContext V) : Type 0 where
  pub chains :
      (k : ℕ) (d : DependencyChain) → get k c.chain_by_id ≡ some d → get k c'.chain_by_id ≡ some d
  pub nodes :
      (k : ℕ)
      → contains k c.dependency_dag.node2info ≡ true
      → contains k c'.dependency_dag.node2info ≡ true

pub Grows-refl : {V : Type 0} (c : ExecutionContext V) → Grows c c
Grows-refl c = record { chains = λ k d e. e; nodes = λ k e. e }

pub Grows-trans : {V : Type 0} {a b c : ExecutionContext V} → Grows a b → Grows b c → Grows a c
Grows-trans x y = record {
  chains = λ k d e. y.chains k d (x.chains k d e);
  nodes = λ k e. y.nodes k (x.nodes k e);
}

-- A node that is done is known.
pub finished_known :
    {V : Type 0} (us outs : List ℕ) (c : ExecutionContext V) (h : History)
    → IsOpen us outs c h
    → (k : ℕ) → elem k h.finished ≡ true
    → contains k c.dependency_dag.node2info ≡ true
unfolding is_finished
finished_known us outs c h o k e = elim (Option-cases (get k c.dependency_dag.node2info)) [
  | inl missing ↦
      let f = (Reach-Inv c.dependency_dag h o.live.reach).finished k in
      absurd (let f' = rw missing at f in ground arith)
  | inr (i, found) ↦ rw found refl
]

pub known_contains :
    (d : Dict ℕ NodeInfo) (byid : Dict ℕ DependencyChain)
    → AllAt (λ p i. contains p byid ≡ true) d
    → (k : ℕ) → contains k d ≡ true
    → contains k byid ≡ true
unfolding AllAt
known_contains d byid a k e = elim (Option-cases (get k d)) [
  | inl missing ↦ absurd (ground arith)
  | inr (i, found) ↦ a k i found
]

pub known_grows :
    (d : Dict ℕ NodeInfo) (byid byid' : Dict ℕ DependencyChain)
    → AllAt (λ p i. contains p byid ≡ true) d
    → ((k : ℕ) → contains k byid ≡ true → contains k byid' ≡ true)
    → AllAt (λ p i. contains p byid' ≡ true) d
unfolding AllAt
known_grows d byid byid' a g p i e = g p (a p i e)

pub dag_known :
    (us outs : List ℕ) (s : TopologicalSorter) (h : History)
    → IsLive us outs s h
    → (k : ℕ) → contains k s.node2info ≡ true
    → elem k us ≡ true
unfolding AllAt
dag_known us outs s h l k c = elim (Option-cases (get k s.node2info)) [
  | inl missing ↦ absurd (ground arith)
  | inr (i, found) ↦ (l.entries k i found).known
]

-- A chain whose identity is new is stored without a change for the others.
module _ (d : DependencyChain) (byid : Dict ℕ DependencyChain) where
  pub put_named :
      ((k : ℕ) (e : DependencyChain) → get k byid ≡ some e → chain_id e ≡ k)
      → (k : ℕ) (e : DependencyChain) → get k (put (chain_id d) d byid) ≡ some e
      → chain_id e ≡ k
  put_named h k e g = elim (Bool-cases (chain_id d == k)) [
    | inl same ↦
        let eq : chain_id d ≡ k = ground arith in
        let g' : some d ≡ some e = rw (get-put, same) at g in
        let eq' : d ≡ e = ground arith in rw (← eq') eq
    | inr other ↦ h k e (rw (get-put, other) at g)
  ]

  pub put_kept :
      contains (chain_id d) byid ≡ false
      → (k : ℕ) (e : DependencyChain) → get k byid ≡ some e
      → get k (put (chain_id d) d byid) ≡ some e
  put_kept n k e g = elim (Bool-cases (chain_id d == k)) [
    | inl same ↦
        let eq : chain_id d ≡ k = ground arith in
        let n' : contains k byid ≡ false = rw (← eq) n in absurd (ground (arith, n', g))
    | inr other ↦ rw (get-put, other) g
  ]

  pub contains-put :
      (k : ℕ) → contains k (put (chain_id d) d byid) ≡ (chain_id d == k || contains k byid)
  contains-put k = rw get-put (ground arith)

  -- The dependencies of each stored chain stay declared as edges.
  pub put_declared :
      (edges : List (ℕ × ℕ))
      → ((k : ℕ) (e : DependencyChain)
          → get k byid ≡ some e
          → (ready finished : List ℕ) → All (Awaits ready finished) edges
          → All (λ p. Awaits ready finished (p, k)) (dependent_ids e))
      → (k : ℕ) (e : DependencyChain) → get k (put (chain_id d) d byid) ≡ some e
      → (ready finished : List ℕ)
      → All (Awaits ready finished) (edges ++ map (λ p. (p, chain_id d)) (dependent_ids d))
      → All (λ p. Awaits ready finished (p, k)) (dependent_ids e)
  put_declared edges h k e g r f w =
      let (old, fresh_edges) =
        All-split (Awaits r f) edges (map (λ p. (p, chain_id d)) (dependent_ids d)) w in
      elim (Bool-cases (chain_id d == k)) [
        | inl same ↦
            let eq : chain_id d ≡ k = ground arith in
            let g' : some d ≡ some e = rw (get-put, same) at g in
            let eq' : d ≡ e = ground arith in
            subst (λ x. All (λ p. Awaits r f (p, k)) (dependent_ids x)) eq'
              (subst (λ m. All (λ p. Awaits r f (p, m)) (dependent_ids d)) eq
                (All-edges (Awaits r f) (chain_id d) (dependent_ids d) fresh_edges))
        | inr other ↦ h k e (rw (get-put, other) at g) r f old
      ]

pub known-Allows :
    (byid : Dict ℕ DependencyChain) (node : ℕ) (preds : List ℕ)
    → contains node byid ≡ true
    → All (λ k. contains k byid ≡ true) preds
    → Allows (λ p i. contains p byid ≡ true) node preds
known-Allows byid node preds h a = record {
  fresh = h;
  found = a;
  linked = All-imp _ _ (λ p c i old. old) preds a;
  counted = λ i num old. old;
}

-- The history once chains were enqueued.
pub record Enqueued {V : Type 0} (us outs : List ℕ) (h : History) (c c' : ExecutionContext V)
    : Type 0 where
  pub history : History
  pub opened : IsOpen us outs c' history
  pub same : history.finished ≡ h.finished
  pub grows : Grows c c'

-- A chain is stored if its identity was not, and no other is.
pub record Stores {V : Type 0} (d : DependencyChain) (c c' : ExecutionContext V) : Type 0 where
  pub stored :
      contains (chain_id d) c.chain_by_id ≡ false → get (chain_id d) c'.chain_by_id ≡ some d
  pub keys :
      (k : ℕ)
      → contains k c'.chain_by_id ≡ true
      → (chain_id d == k || contains k c.chain_by_id) ≡ true
