-- ===== src/Graph/Compiling.antt =====
-- What the compilation of a graph makes: chains that are younger than all they depend on, so that
-- no chain depends on itself, and an order of them for each source.
use trust_and_safety_demo.Base.{
  ℕ, suc, ◌≤◌, ◌<◌, ◌≡◌, subst, Option, none, some, List, [], ◌∷◌, String, string_eq, nat_eq, All,
  All-imp, arith, ok, >>=-eq-ok,
}
use trust_and_safety_demo.Base.Dict.{Dict, get, put, All-get, All-put}
use trust_and_safety_demo.Graph.Defs.{
  AstNode, load, other, Nodes, no_nodes, ◌&◌, DependencyChain, dependency_chain, Chains, no_chains,
  ◌⨾◌, chain_id, Statement, Source, ExecutionGraph, lookup, build, build_all, add_statement,
  add_statements, add_validated_sources,
}
use trust_and_safety_demo.Graph.Sorting.{IsInOrder, lookup-ok}

-- A chain is younger than those that it depends on, and so are these.
unfoldable mutual
  unfolding chain_id

  pub IsBuilt : DependencyChain → Type 0
  IsBuilt (dependency_chain id node deps) = AreBuilt id deps

  pub AreBuilt : ℕ → Chains → Type 0
  AreBuilt id no_chains = Unit
  AreBuilt id (c ⨾ cs) = (chain_id c < id) × IsBuilt c × AreBuilt id cs

-- A chain that was made before the identity `n` was.
unfoldable pub IsBelow : ℕ → DependencyChain → Type 0
IsBelow n c = (chain_id c < n) × IsBuilt c

IsBelow-le : (m n : ℕ) → m ≤ n → (c : DependencyChain) → IsBelow m c → IsBelow n c
unfolding IsBelow
IsBelow-le m n le c h = (omega (arith, h.0), h.1)

AreBuilt-le : (m n : ℕ) (cs : Chains) → m ≤ n → AreBuilt m cs → AreBuilt n cs
unfolding AreBuilt
AreBuilt-le m n no_chains le h = tt
AreBuilt-le m n (c ⨾ cs) le h = (omega (arith, h.0), h.1, AreBuilt-le m n cs le h.2)

-- The values of a dict were made before `n`.
abbrev pub Below : {K : Type 0} → ℕ → Dict K DependencyChain → Type 0
Below n d = All (λ p. IsBelow n p.1) d

Below-le : {K : Type 0} (m n : ℕ) → m ≤ n → (d : Dict K DependencyChain) → Below m d → Below n d
Below-le m n le d h = All-imp _ _ (λ p. IsBelow-le m n le p.1) d h

mutual
  unfolding build IsBelow chain_id IsBuilt

  build-IsBelow :
      (names : Dict String DependencyChain) (x : AstNode) (n : ℕ) (c : DependencyChain) (n' : ℕ)
      → Below n names
      → build names x n ≡ ok (c, n')
      → (n ≤ n') × IsBelow n' c
  build-IsBelow names (load key) n c n' h e =
      let (a, found, out) = >>=-eq-ok (lookup (get key names)) _ e in
      let same : a ≡ c = ground arith in
      let next : n ≡ n' = ground arith in
      let b = All-get (λ v. IsBelow n v) key names h (lookup-ok (get key names) found) in
      (omega arith, subst (IsBelow n') same (IsBelow-le n n' (omega arith) a b))
  build-IsBelow names (other node deps) n c n' h e =
      let (p, run, out) = >>=-eq-ok (build_all names deps n) _ e in
      let (le, b) = build_all-AreBuilt names deps n p.0 p.1 h run in
      let same : dependency_chain p.1 node p.0 ≡ c = ground arith in
      let next : suc p.1 ≡ n' = ground arith in
      (omega arith, subst (IsBelow n') same (omega arith, b))

  build_all-AreBuilt :
      (names : Dict String DependencyChain) (xs : Nodes) (n : ℕ) (cs : Chains) (n' : ℕ)
      → Below n names
      → build_all names xs n ≡ ok (cs, n')
      → (n ≤ n') × AreBuilt n' cs
  build_all-AreBuilt names no_nodes n cs n' h e =
      let same : no_chains ≡ cs = ground arith in
      let next : n ≡ n' = ground arith in (omega arith, subst (AreBuilt n') same tt)
  build_all-AreBuilt names (x & xs) n cs n' h e =
      let (p, run, rest) = >>=-eq-ok (build names x n) _ e in
      let (q, runs, out) = >>=-eq-ok (build_all names xs p.1) _ rest in
      let (le, b) = build-IsBelow names x n p.0 p.1 h run in
      let (les, bs) = build_all-AreBuilt names xs p.1 q.0 q.1 (Below-le n p.1 le names h) runs in
      let same : p.0 ⨾ q.0 ≡ cs = ground arith in
      let next : q.1 ≡ n' = ground arith in
      (
        omega arith,
        subst (AreBuilt n') same (omega (arith, b.0), b.1, subst (λ m. AreBuilt m q.0) next bs),
      )

-- The chains of a source in the order in which the executor adds them.
unfoldable pub IsPlan : List DependencyChain → Type 0
IsPlan cs = IsInOrder [] cs × All IsBuilt cs

-- What the chains of a graph are.
pub record IsMade (g : ExecutionGraph) : Type 0 where
  pub roots : Below g.next_id g.root_node_executor_mapping
  pub names : Below g.next_id g.assignment_executor_mapping
  pub plans : All (λ p. IsPlan p.1) g.sorted_dependency_chains

put_target-Below :
    (n : ℕ) (target : Option String) (c : DependencyChain) (d : Dict String DependencyChain)
    → IsBelow n c
    → Below n d
    → Below n (elim target [ none ↦ d | some key ↦ put key c d ])
put_target-Below n none c d b h = h
put_target-Below n (some key) c d b h = All-put (λ v. IsBelow n v) key c d b h

add_statement-IsMade :
    (s : Statement) (g g' : ExecutionGraph) → IsMade g → add_statement s g ≡ ok g' → IsMade g'
unfolding add_statement
add_statement-IsMade s g g' h e =
    let (p, run, out) =
      >>=-eq-ok (build g.assignment_executor_mapping (other s.node s.dependents) g.next_id) _ e in
    let (le, b) =
      build-IsBelow g.assignment_executor_mapping (other s.node s.dependents) g.next_id p.0 p.1
        h.names run in
    let made : ExecutionGraph = record g {
      root_node_executor_mapping = put s.node p.0 g.root_node_executor_mapping;
      assignment_executor_mapping = elim s.target [
        | none ↦ g.assignment_executor_mapping
        | some key ↦ put key p.0 g.assignment_executor_mapping
      ];
      next_id = p.1;
    } in
    let same : made ≡ g' = ground arith in
    subst IsMade same (record {
      roots =
          All-put (λ v. IsBelow p.1 v) s.node p.0 g.root_node_executor_mapping b
            (Below-le g.next_id p.1 le g.root_node_executor_mapping h.roots);
      names =
          put_target-Below p.1 s.target p.0 g.assignment_executor_mapping b
            (Below-le g.next_id p.1 le g.assignment_executor_mapping h.names);
      plans = h.plans;
    })

add_statements-IsMade :
    (ss : List Statement) (g g' : ExecutionGraph)
    → IsMade g
    → add_statements ss g ≡ ok g'
    → IsMade g'
unfolding add_statements
add_statements-IsMade [] g g' h e = subst IsMade (ground arith) h
add_statements-IsMade (s ∷ ss) g g' h e =
    let (m, run, rest) = >>=-eq-ok (add_statement s g) _ e in
    add_statements-IsMade ss m g' (add_statement-IsMade s g m h run) rest

pub add_validated_sources-IsMade :
    (ss : List Source) (g g' : ExecutionGraph)
    → IsMade g
    → add_validated_sources ss g ≡ ok g'
    → IsMade g'
unfolding add_validated_sources
add_validated_sources-IsMade [] g g' h e = subst IsMade (ground arith) h
add_validated_sources-IsMade (s ∷ ss) g g' h e =
    let (m, run, rest) = >>=-eq-ok (add_statements s.statements g) _ e in
    add_validated_sources-IsMade ss m g' (add_statements-IsMade s.statements g m h run) rest
