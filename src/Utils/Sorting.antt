-- ===== src/Utils/Sorting.antt =====
-- `topological_sort` is right, and ends.
use trust_and_safety_demo.Base.{
  ℕ, zero, suc, ◌≡◌, refl, sym, subst, ap, ◌∙◌, inl, inr, true, false, ◌||◌, Option, none, some,
  List, [], ◌∷◌, ◌++◌, map, nat_eq, ◌==◌, beq_refl, elem, elem-append, AreAmong, InOrder,
  InOrder-snoc, Bool-cases, arith,
}
use trust_and_safety_demo.Utils.Defs.{
  Graph, iter_edges, Sorting, Visit, went_well, cyclic, failed, enter, leave, after, visit_edges,
  visit_nodes, visit,
}

-- The invariant: what was visited is on the path or sorted, not both, and what is sorted comes after
-- its edges.
pub record IsSorting (g : Graph) (s : Sorting) : Type 0 where
  pub members : (n : ℕ) → elem n s.visited ≡ (elem n s.sorted_path || elem n s.sorted_nodes)
  pub apart : (n : ℕ) → elem n s.sorted_path ≡ true → elem n s.sorted_nodes ≡ false
  pub in_order : InOrder (λ n. n) (λ n. iter_edges n g) [] s.sorted_nodes

-- What a call that goes well keeps.
pub record Keeps (g : Graph) (s s' : Sorting) : Type 0 where
  pub sorting : IsSorting g s'
  pub path : s'.sorted_path ≡ s.sorted_path
  pub grows : (n : ℕ) → elem n s.sorted_nodes ≡ true → elem n s'.sorted_nodes ≡ true

Keeps-trans : {g : Graph} {a b c : Sorting} → Keeps g a b → Keeps g b c → Keeps g a c
Keeps-trans x y = record {
  sorting = y.sorting;
  path = y.path ∙ x.path;
  grows = λ n h. y.grows n (x.grows n h);
}

-- A call of `visit` off the path sorts its node.
pub IsVisit : Graph → (ℕ → Sorting → Option Visit) → Type 0
IsVisit g v =
    (n : ℕ) (s s' : Sorting)
    → IsSorting g s
    → elem n s.sorted_path ≡ false
    → v n s ≡ some (went_well s')
    → Keeps g s s' × (elem n s'.sorted_nodes ≡ true)

pub after-well :
    (o : Option Visit) (next : Sorting → Option Visit) (t : Sorting)
    → after o next ≡ some (went_well t)
    → (s : Sorting) × (o ≡ some (went_well s)) × (next s ≡ some (went_well t))
unfolding after
after-well none next t e = cc
after-well (some (went_well s)) next t e = (s, refl, e)
after-well (some (cyclic p)) next t e = cc
after-well (some (failed x)) next t e = cc

module _ (g : Graph) (v : ℕ → Sorting → Option Visit) (is_visit : IsVisit g v) where
  visit_edges-Keeps :
      (es : List ℕ) (s t : Sorting)
      → IsSorting g s
      → visit_edges v es s ≡ some (went_well t)
      → Keeps g s t × AreAmong es t.sorted_nodes
  unfolding visit_edges IsVisit
  visit_edges-Keeps [] s t h e =
      let same : s ≡ t = ground arith in
      (subst (Keeps g s) same (record { sorting = h; path = refl; grows = λ n m. m }), tt)
  visit_edges-Keeps (x ∷ es) s t h e = elim (Bool-cases (elem x s.sorted_path)) [
    | inl on ↦ absurd (let e' = rw (visit_edges, on) at e in ground arith)
    | inr off ↦
        let (m, run, rest) =
          after-well (v x s) (λ s'. visit_edges v es s') t (rw (visit_edges, off) at e) in
        let (k, here) = is_visit x s m h off run in
        let (k', among) = visit_edges-Keeps es m t k.sorting rest in
        (Keeps-trans k k', (k'.grows x here, among))
  ]

  pub visit_nodes-Keeps :
      (ns : List ℕ) (s t : Sorting)
      → IsSorting g s
      → s.sorted_path ≡ []
      → visit_nodes v ns s ≡ some (went_well t)
      → Keeps g s t × AreAmong ns t.sorted_nodes
  unfolding visit_nodes IsVisit
  visit_nodes-Keeps [] s t h p e =
      let same : s ≡ t = ground arith in
      (subst (Keeps g s) same (record { sorting = h; path = refl; grows = λ n m. m }), tt)
  visit_nodes-Keeps (x ∷ ns) s t h p e =
      let (m, run, rest) = after-well (v x s) (λ s'. visit_nodes v ns s') t e in
      let (k, here) = is_visit x s m h (rw p refl) run in
      let (k', among) = visit_nodes-Keeps ns m t k.sorting (k.path ∙ p) rest in
      (Keeps-trans k k', (k'.grows x here, among))

enter-IsSorting :
    (g : Graph) (n : ℕ) (s : Sorting)
    → IsSorting g s
    → elem n s.visited ≡ false
    → IsSorting g (enter n s)
unfolding enter
enter-IsSorting g n s h new = record {
  members = λ k. ground (arith, h.members k);
  apart = λ k on. elim (Bool-cases (n == k)) [
    | inl same ↦
        let eq : n ≡ k = ground arith in
        let new' : elem k s.visited ≡ false = rw (← eq) new in ground (arith, h.members k, new')
    | inr other ↦ h.apart k (rw other at on)
  ];
  in_order = h.in_order;
}

map-same : (xs : List ℕ) → map (λ n. n) xs ≡ xs
map-same [] = refl
map-same (x ∷ xs) = ap (λ ys. x ∷ ys) (map-same xs)

abbrev left : ℕ → List ℕ → Sorting → Sorting
left n path s = record s { sorted_path = path; sorted_nodes = s.sorted_nodes ++ n ∷ [] }

leave-left :
    (n : ℕ) (path : List ℕ) (s : Sorting)
    → s.sorted_path ≡ n ∷ path
    → leave n s ≡ went_well (left n path s)
unfolding leave
leave-left n path s p = rw (leave, p) (rw (beq_refl n) refl)

left-IsSorting :
    (g : Graph) (n : ℕ) (path : List ℕ) (s : Sorting)
    → IsSorting g s
    → s.sorted_path ≡ n ∷ path
    → elem n path ≡ false
    → AreAmong (iter_edges n g) s.sorted_nodes
    → IsSorting g (left n path s)
left-IsSorting g n path s h p off among =
    let on : (k : ℕ) → elem k s.sorted_path ≡ (n == k || elem k path) = λ k. rw p refl in
    let there : elem n s.sorted_path ≡ true = rw (on n, beq_refl n) refl in
    record {
      members = λ k. rw (elem-append k s.sorted_nodes (n ∷ [])) (ground (arith, h.members k, on k));
      apart = λ k q. elim (Bool-cases (n == k)) [
        | inl same ↦
            let eq : n ≡ k = ground arith in
            let off' : elem k path ≡ false = rw (← eq) off in absurd (ground (arith, off', q))
        | inr other ↦
            rw (elem-append k s.sorted_nodes (n ∷ []), other) (ground (arith, h.apart k, on k, q))
      ];
      in_order =
          InOrder-snoc (λ m. m) (λ m. iter_edges m g) [] s.sorted_nodes n h.in_order
            (rw map-same (h.apart n there)) (rw map-same among);
    }

pub visit-IsVisit : (g : Graph) (fuel : ℕ) → IsVisit g (visit g fuel)
unfolding IsVisit visit
visit-IsVisit g zero n s t h off e = cc
visit-IsVisit g (suc fuel) n s t h off e = elim (Bool-cases (elem n s.visited)) [
  | inl old ↦
      let e' = rw (visit, old) at e in
      let same : s ≡ t = ground arith in
      (
        subst (Keeps g s) same (record { sorting = h; path = refl; grows = λ k m. m }),
        subst (λ (u : Sorting). elem n u.sorted_nodes ≡ true) same
            (ground (arith, h.members n, old, off)),
      )
  | inr new ↦
      let (m, run, rest) =
        after-well (visit_edges (visit g fuel) (iter_edges n g) (enter n s))
          (λ s'. some (leave n s')) t (rw (visit, new) at e) in
      let (k, among) =
        visit_edges-Keeps g (visit g fuel) (visit-IsVisit g fuel) (iter_edges n g) (enter n s) m
          (enter-IsSorting g n s h new) run in
      let path : m.sorted_path ≡ n ∷ s.sorted_path = unfold enter in k.path in
      let done : some (went_well (left n s.sorted_path m)) ≡ some (went_well t) =
        ap some (sym (leave-left n s.sorted_path m path)) ∙ rest in
      let same : left n s.sorted_path m ≡ t = ground arith in
      (
        subst (Keeps g s) same (record {
          sorting = left-IsSorting g n s.sorted_path m k.sorting path off among;
          path = refl;
          grows =
              λ x q. rw (elem-append x m.sorted_nodes (n ∷ []), k.grows x (unfold enter in q)) refl;
        }),
        subst (λ (u : Sorting). elem n u.sorted_nodes ≡ true) same
            (rw (elem-append n m.sorted_nodes (n ∷ []), beq_refl n) (ground arith)),
      )
]
