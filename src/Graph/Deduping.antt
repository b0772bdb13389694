-- ===== src/Graph/Deduping.antt =====
-- Which sources a graph is compiled from.
use trust_and_safety_demo.Base.{
  ◌≡◌, refl, subst, inl, inr, Bool-cases, true, false, ◌||◌, List, [], ◌∷◌, ◌++◌, String, string_eq,
  nat_eq, ◌==◌, beq_refl, elem, elem-append, IsDistinct, arith, ok, >>=-eq-ok, map,
}
use trust_and_safety_demo.Base.Dict.{put, get-put, contains}
use trust_and_safety_demo.Graph.Defs.{
  Source, ExecutionGraph, no_graph, dedupe, chain_dedupe, topologically_sort, add_validated_sources,
  add_sorted_chains, compile_execution_graph,
}

abbrev pub paths : List Source → List String
paths xs = map (λ x. x.path) xs

-- What was seen is not given again.
dedupe-unseen :
    (xs : List Source) (seen : List String) (p : String)
    → elem p seen ≡ true
    → elem p (paths (dedupe xs seen)) ≡ false
unfolding dedupe
dedupe-unseen [] seen p h = refl
dedupe-unseen (x ∷ xs) seen p h = elim (Bool-cases (elem x.path seen)) [
  | inl old ↦ rw old (dedupe-unseen xs seen p h)
  | inr new ↦ elim (Bool-cases (x.path == p)) [
    | inl same ↦
        let eq : x.path ≡ p = (string_eq.beq_iff x.path p).0 same in
        let unseen : elem p seen ≡ false = subst (λ q. elem q seen ≡ false) eq new in
        absurd (ground arith)
    | inr other ↦
        rw (new, other)
          (dedupe-unseen xs (seen ++ x.path ∷ []) p (rw (elem-append p seen (x.path ∷ []), h) refl))
  ]
]

dedupe-IsDistinct : (xs : List Source) (seen : List String) → IsDistinct (paths (dedupe xs seen))
unfolding dedupe
dedupe-IsDistinct [] seen = tt
dedupe-IsDistinct (x ∷ xs) seen = elim (Bool-cases (elem x.path seen)) [
  | inl old ↦ rw old (dedupe-IsDistinct xs seen)
  | inr new ↦ rw new (
    dedupe-unseen xs (seen ++ x.path ∷ []) x.path
        (rw (elem-append x.path seen (x.path ∷ []), beq_refl x.path) (ground arith)),
    dedupe-IsDistinct xs (seen ++ x.path ∷ []),
  )
]

elem-dedupe :
    (xs : List Source) (seen : List String) (p : String)
    → (elem p seen || elem p (paths (dedupe xs seen))) ≡ (elem p seen || elem p (paths xs))
unfolding dedupe
elem-dedupe [] seen p = refl
elem-dedupe (x ∷ xs) seen p =
    let app = elem-append p seen (x.path ∷ []) in
    elim (Bool-cases (elem x.path seen)) [
      | inl old ↦ elim (Bool-cases (x.path == p)) [
        | inl same ↦
            let eq : x.path ≡ p = (string_eq.beq_iff x.path p).0 same in
            let there : elem p seen ≡ true = subst (λ q. elem q seen ≡ true) eq old in rw there refl
        | inr other ↦ rw (old, other) (elem-dedupe xs seen p)
      ]
      | inr new ↦ rw new (ground (arith, app, elem-dedupe xs (seen ++ x.path ∷ []) p))
    ]

-- `chain_dedupe` gives each path once, and the paths of both of its arguments.
pub chain_dedupe_lem :
    (first second : List Source)
    → IsDistinct (paths (chain_dedupe first second))
      × ((p : String)
          → elem p (paths (chain_dedupe first second)) ≡ elem p (paths (first ++ second)))
unfolding chain_dedupe
chain_dedupe_lem first second =
    (dedupe-IsDistinct (first ++ second) [], λ p. elem-dedupe (first ++ second) [] p)

add_sorted_chains-contains :
    (xs : List Source) (g g' : ExecutionGraph)
    → add_sorted_chains xs g ≡ ok g'
    → (p : String) → (contains p g.sorted_dependency_chains || elem p (paths xs)) ≡ true
    → contains p g'.sorted_dependency_chains ≡ true
unfolding add_sorted_chains
add_sorted_chains-contains [] g g' e p h =
    let same : g ≡ g' = ground arith in
    subst (λ (u : ExecutionGraph). contains p u.sorted_dependency_chains ≡ true) same (ground arith)
add_sorted_chains-contains (x ∷ xs) g g' e p h =
    let (cs, run, rest) = >>=-eq-ok (topologically_sort g x) _ e in
    add_sorted_chains-contains xs
      (record g { sorted_dependency_chains = put x.path cs g.sorted_dependency_chains }) g' rest p
      (rw get-put (ground arith))

-- A graph that was compiled has the sorted chains of every source: `get_sorted_dependency_chain` of
-- none of them raises.
pub compile_execution_graph-contains :
    (sorted_sources sources : List Source) (g : ExecutionGraph)
    → compile_execution_graph sorted_sources sources ≡ ok g
    → (p : String) → elem p (paths (sorted_sources ++ sources)) ≡ true
    → contains p g.sorted_dependency_chains ≡ true
unfolding compile_execution_graph
compile_execution_graph-contains sorted_sources sources g e p h =
    let ordered : List Source = chain_dedupe sorted_sources sources in
    let (m, run, rest) = >>=-eq-ok (add_validated_sources ordered no_graph) _ e in
    let there = (chain_dedupe_lem sorted_sources sources).1 p in
    add_sorted_chains-contains ordered m g rest p (ground (arith, there, h))
