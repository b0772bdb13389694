-- ===== src/Graph/Sorting.antt =====
-- The order of a source's chains.
use trust_and_safety_demo.Base.{
  AreAmong, InOrder, InOrder-snoc, ℕ, ◌≡◌, refl, ap, subst, inl, inr, Bool-cases, Option, none,
  some, true, List, [], ◌∷◌, ◌++◌, map, nat_eq, beq_refl, elem, elem-append, All, arith, ok,
  >>=-eq-ok,
}
use trust_and_safety_demo.Base.Dict.{Dict, get}
use trust_and_safety_demo.Graph.Defs.{
  DependencyChain, dependency_chain, Chains, no_chains, ◌⨾◌, chain_id, ids_of, dependent_ids,
  Sorting, visit, do_topological_sort, sort_chains, sort_statements, Statement, lookup,
  topologically_sort, ExecutionGraph, Source,
}

-- No chain of the list stands twice or is in `before`, and each comes after its dependencies.
abbrev pub IsInOrder : List ℕ → List DependencyChain → Type 0
IsInOrder before cs = InOrder chain_id dependent_ids before cs

abbrev pub ids : List DependencyChain → List ℕ
ids cs = map chain_id cs

ids-snoc :
    (cs : List DependencyChain) (c : DependencyChain)
    → ids (cs ++ c ∷ []) ≡ ids cs ++ chain_id c ∷ []
ids-snoc [] c = refl
ids-snoc (x ∷ cs) c = ap (λ l. chain_id x ∷ l) (ids-snoc cs c)

-- The invariant of the sort.
pub record IsSorting (s : Sorting) : Type 0 where
  pub same : s.visited ≡ ids s.sorted_chain
  pub in_order : IsInOrder [] s.sorted_chain

-- What a step of the sort keeps.
pub record Extends (s t : Sorting) : Type 0 where
  pub sorting : IsSorting t
  pub grows : (i : ℕ) → elem i s.visited ≡ true → elem i t.visited ≡ true

visit-Extends :
    (c : DependencyChain) (s : Sorting)
    → IsSorting s
    → AreAmong (dependent_ids c) s.visited
    → Extends s (visit c s) × (elem (chain_id c) (visit c s).visited ≡ true)
unfolding visit
visit-Extends c s h a = elim (Bool-cases (elem (chain_id c) s.visited)) [
  | inl old ↦ rw old (record { sorting = h; grows = λ i e. e }, old)
  | inr new ↦ rw new (
    record {
      sorting = record {
        same = rw (ids-snoc, h.same) refl;
        in_order =
            InOrder-snoc chain_id dependent_ids [] s.sorted_chain c h.in_order (rw h.same at new)
              (subst (AreAmong (dependent_ids c)) h.same a);
      };
      grows = λ i e. rw (elem-append, e) refl;
    },
    rw (elem-append, beq_refl (chain_id c)) (ground arith),
  )
]

mutual
  unfolding do_topological_sort chain_id dependent_ids ids_of

  pub do_topological_sort-Extends :
      (c : DependencyChain) (s : Sorting)
      → IsSorting s
      → Extends s (do_topological_sort c s)
        × (elem (chain_id c) (do_topological_sort c s).visited ≡ true)
  do_topological_sort-Extends (dependency_chain i n deps) s h =
      let (e, a) = sort_chains-Extends deps s h in
      let (e', r) = visit-Extends (dependency_chain i n deps) (sort_chains deps s) e.sorting a in
      (record { sorting = e'.sorting; grows = λ j m. e'.grows j (e.grows j m) }, r)

  sort_chains-Extends :
      (cs : Chains) (s : Sorting)
      → IsSorting s
      → Extends s (sort_chains cs s) × AreAmong (ids_of cs) (sort_chains cs s).visited
  sort_chains-Extends no_chains s h = (record { sorting = h; grows = λ i m. m }, tt)
  sort_chains-Extends (c ⨾ cs) s h =
      let (e, r) = do_topological_sort-Extends c s h in
      let (e', a) = sort_chains-Extends cs (do_topological_sort c s) e.sorting in
      (
        record { sorting = e'.sorting; grows = λ j m. e'.grows j (e.grows j m) },
        (e'.grows (chain_id c) r, a),
      )

-- The chain of a statement is among `seen`.
unfoldable pub HasChain : Dict ℕ DependencyChain → List ℕ → Statement → Type 0
HasChain roots seen x =
    (c : DependencyChain) × (get x.node roots ≡ some c) × (elem (chain_id c) seen ≡ true)

pub lookup-ok {ℓ} : {A : Type ℓ} (o : Option A) {a : A} → lookup o ≡ ok a → o ≡ some a
unfolding lookup
lookup-ok none h = cc
lookup-ok (some a) h = ground arith

sort_statements-Extends :
    (roots : Dict ℕ DependencyChain) (xs : List Statement) (s t : Sorting)
    → IsSorting s
    → sort_statements roots xs s ≡ ok t
    → Extends s t × All (HasChain roots t.visited) xs
unfolding sort_statements HasChain
sort_statements-Extends roots [] s t h e =
    let same : s ≡ t = ground arith in
    (subst (Extends s) same (record { sorting = h; grows = λ i m. m }), tt)
sort_statements-Extends roots (x ∷ xs) s t h e =
    let (c, found, rest) = >>=-eq-ok (lookup (get x.node roots)) _ e in
    let (step, r) = do_topological_sort-Extends c s h in
    let (steps, all_there) =
      sort_statements-Extends roots xs (do_topological_sort c s) t step.sorting rest in
    (
      record { sorting = steps.sorting; grows = λ i m. steps.grows i (step.grows i m) },
      ((c, lookup-ok (get x.node roots) found, steps.grows (chain_id c) r), all_there),
    )

-- The chains that `_topologically_sort_dependency_chain_for` gives for a source are distinct, each
-- comes after all the chains that it depends on, and the chain of every statement of the source is
-- among them.
pub topologically_sort-IsInOrder :
    (g : ExecutionGraph) (source : Source) (cs : List DependencyChain)
    → topologically_sort g source ≡ ok cs
    → IsInOrder [] cs × All (HasChain g.root_node_executor_mapping (ids cs)) source.statements
unfolding topologically_sort
topologically_sort-IsInOrder g source cs e =
    let start : Sorting = record { visited = []; sorted_chain = [] } in
    let (s, run, out) =
      >>=-eq-ok (sort_statements g.root_node_executor_mapping source.statements start) _ e in
    let same : s.sorted_chain ≡ cs = ground arith in
    let (x, there) =
      sort_statements-Extends g.root_node_executor_mapping source.statements start s
        (record { same = refl; in_order = tt }) run in
    (
      subst (IsInOrder []) same x.sorting.in_order,
      subst (λ l. All (HasChain g.root_node_executor_mapping (ids l)) source.statements) same
          (subst (λ l. All (HasChain g.root_node_executor_mapping l) source.statements)
            x.sorting.same there),
    )
