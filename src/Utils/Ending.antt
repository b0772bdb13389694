-- ===== src/Utils/Ending.antt =====
-- `topological_sort` ends: a call of `visit` is made inside another only after that has visited one
-- more node of the graph.
use trust_and_safety_demo.Base.{
  ℕ, zero, suc, ◌<◌, ◌≡◌, refl, sym, subst, ◌∙◌, inl, inr, true, false, Option, none, some, List,
  [], ◌∷◌, nat_eq, ◌==◌, elem, AreAmong, InOrder, unfinished, unfinished-lt, unfinished-imp,
  unfinished-length, is_some, length, Bool-cases, Option-cases, arith,
}
use trust_and_safety_demo.Base.Dict.{get, keys, contains, contains-elem}
use trust_and_safety_demo.Utils.Defs.{
  Graph, iter_edges, Sorting, Visit, went_well, cyclic, failed, enter, leave, after, visit_edges,
  visit_nodes, visit, topological_sort,
}
use trust_and_safety_demo.Utils.Sorting.{IsSorting, after-well, visit-IsVisit, visit_nodes-Keeps}

-- A call that goes well forgets no visited node.
IsGrowing : (ℕ → Sorting → Option Visit) → Type 0
IsGrowing v =
    (n : ℕ) (s t : Sorting)
    → v n s ≡ some (went_well t)
    → (k : ℕ) → elem k s.visited ≡ true
    → elem k t.visited ≡ true

leave-visited : (n : ℕ) (s t : Sorting) → leave n s ≡ went_well t → s.visited ≡ t.visited
unfolding leave
leave-visited n s t e = go s.sorted_path refl
  where
    go : (path : List ℕ) → s.sorted_path ≡ path → s.visited ≡ t.visited
    go [] p = let e' = rw (leave, p) at e in absurd (ground arith)
    go (x ∷ path) p = elim (Bool-cases (x == n)) [
      | inl same ↦ let e' = rw (leave, p) at e in let f = rw same at e' in ground arith
      | inr other ↦ let e' = rw (leave, p) at e in let f = rw other at e' in absurd (ground arith)
    ]

visit_edges-IsGrowing :
    (v : ℕ → Sorting → Option Visit)
    → IsGrowing v
    → (es : List ℕ) (s t : Sorting) → visit_edges v es s ≡ some (went_well t)
    → (k : ℕ) → elem k s.visited ≡ true
    → elem k t.visited ≡ true
unfolding visit_edges IsGrowing
visit_edges-IsGrowing v g [] s t e k h =
    let same : s ≡ t = ground arith in subst (λ (u : Sorting). elem k u.visited ≡ true) same h
visit_edges-IsGrowing v g (x ∷ es) s t e k h = elim (Bool-cases (elem x s.sorted_path)) [
  | inl on ↦ absurd (let e' = rw (visit_edges, on) at e in ground arith)
  | inr off ↦
      let (m, run, rest) =
        after-well (v x s) (λ s'. visit_edges v es s') t (rw (visit_edges, off) at e) in
      visit_edges-IsGrowing v g es m t rest k (g x s m run k h)
]

visit-IsGrowing : (g : Graph) (fuel : ℕ) → IsGrowing (visit g fuel)
unfolding IsGrowing visit
visit-IsGrowing g zero n s t e k h = cc
visit-IsGrowing g (suc fuel) n s t e k h = elim (Bool-cases (elem n s.visited)) [
  | inl old ↦
      let e' = rw (visit, old) at e in
      let same : s ≡ t = ground arith in subst (λ (u : Sorting). elem k u.visited ≡ true) same h
  | inr new ↦
      let (m, run, rest) =
        after-well (visit_edges (visit g fuel) (iter_edges n g) (enter n s))
          (λ s'. some (leave n s')) t (rw (visit, new) at e) in
      let more : elem k (enter n s).visited ≡ true = unfold enter in rw h (ground arith) in
      let there =
        visit_edges-IsGrowing (visit g fuel) (visit-IsGrowing g fuel) (iter_edges n g) (enter n s) m
          run k more in
      let left : leave n m ≡ went_well t = ground arith in
      subst (λ l. elem k l ≡ true) (leave-visited n m t left) there
]

after-ends :
    (o : Option Visit) (next : Sorting → Option Visit)
    → is_some o ≡ true
    → ((s : Sorting) → o ≡ some (went_well s) → is_some (next s) ≡ true)
    → is_some (after o next) ≡ true
unfolding after
after-ends none next h f = cc
after-ends (some (went_well s)) next h f = f s refl
after-ends (some (cyclic p)) next h f = refl
after-ends (some (failed x)) next h f = refl

-- Calls end where fewer than `b` nodes are not visited.
module _ (us : List ℕ) (b : ℕ) (v : ℕ → Sorting → Option Visit) (growing : IsGrowing v)
    (ends : (n : ℕ) (s : Sorting) → unfinished us s.visited < b → is_some (v n s) ≡ true) where
  visit_edges-ends :
      (es : List ℕ) (s : Sorting)
      → unfinished us s.visited < b
      → is_some (visit_edges v es s) ≡ true
  unfolding visit_edges IsGrowing
  visit_edges-ends [] s h = refl
  visit_edges-ends (x ∷ es) s h = elim (Bool-cases (elem x s.sorted_path)) [
    | inl on ↦ rw on refl
    | inr off ↦ rw off (
        after-ends (v x s) (λ s'. visit_edges v es s') (ends x s h)
          (λ m run. visit_edges-ends es m (
            omega
              (arith, h, unfinished-imp us s.visited m.visited (λ k q. growing x s m run k q)))))
  ]

  visit_nodes-ends :
      (ns : List ℕ) (s : Sorting)
      → unfinished us s.visited < b
      → is_some (visit_nodes v ns s) ≡ true
  unfolding visit_nodes IsGrowing
  visit_nodes-ends [] s h = refl
  visit_nodes-ends (x ∷ ns) s h =
      after-ends (v x s) (λ s'. visit_nodes v ns s') (ends x s h)
        (λ m run.
          visit_nodes-ends ns m (
            omega (arith, h, unfinished-imp us s.visited m.visited (λ k q. growing x s m run k q))))

no_edges : (n : ℕ) (g : Graph) → contains n g ≡ false → iter_edges n g ≡ []
unfolding iter_edges
no_edges n g h = elim (Option-cases (get n g)) [
  | inl e ↦ rw (iter_edges, e) refl
  | inr (es, e) ↦ absurd (ground arith)
]

visit-ends :
    (g : Graph) (fuel n : ℕ) (s : Sorting)
    → unfinished (keys g) s.visited < fuel
    → is_some (visit g fuel n s) ≡ true
unfolding visit
visit-ends g zero n s h = absurd (omega (arith, h))
visit-ends g (suc fuel) n s h = elim (Bool-cases (elem n s.visited)) [
  | inl old ↦ rw old refl
  | inr new ↦ rw new (
      after-ends (visit_edges (visit g fuel) (iter_edges n g) (enter n s)) (λ s'. some (leave n s'))
        (elim (Bool-cases (contains n g)) [
          | inl there ↦
              let less = unfinished-lt (keys g) s.visited n (sym (contains-elem n g) ∙ there) new in
              visit_edges-ends (keys g) fuel (visit g fuel) (visit-IsGrowing g fuel)
                (λ m t q. visit-ends g fuel m t q) (iter_edges n g) (enter n s)
                (unfold enter in omega (arith, h, less))
          | inr missing ↦ rw (no_edges n g missing) (unfold visit_edges in refl)
        ])
        (λ m run. refl))
]

-- With fuel for more calls inside each other than the graph has nodes, `topological_sort` comes to an
-- end, be it an exception. If it returns, the nodes that it gives are distinct, all the nodes of the
-- graph are among them, and each comes after all the nodes that its edges lead to.
pub topological_sort_lem :
    (g : Graph) (fuel : ℕ)
    → length (keys g) < fuel
    → (is_some (topological_sort fuel g) ≡ true)
      × ((t : Sorting)
          → topological_sort fuel g ≡ some (went_well t)
          → InOrder (λ n. n) (λ n. iter_edges n g) [] t.sorted_nodes
            × AreAmong (keys g) t.sorted_nodes)
unfolding topological_sort
topological_sort_lem g fuel h =
    let start : Sorting = record { sorted_path = []; visited = []; sorted_nodes = [] } in
    let nothing : IsSorting g start = record {
      members = λ n. refl;
      apart = λ n q. cc;
      in_order = tt;
    } in
    (
      visit_nodes-ends (keys g) fuel (visit g fuel) (visit-IsGrowing g fuel)
          (λ n s q. visit-ends g fuel n s q) (keys g) start
          (omega (arith, h, unfinished-length (keys g) [])),
      λ t e.
          let (k, among) =
            visit_nodes-Keeps g (visit g fuel) (visit-IsVisit g fuel) (keys g) start t nothing refl
              e in
          (k.sorting.in_order, among),
    )
