-- ===== src/Sorter/Calls.antt =====
-- Runs of a sorter: any calls of its methods, in any order, as the executor makes them while it adds
-- the nodes of imported files. What a run has declared and finished is kept beside the sorter.
use trust_and_safety_demo.Base.{
  ℕ, zero, suc, ◌≤◌, ◌≡◌, inl, inr, true, false, ◌||◌, some, List, [], ◌∷◌, ◌++◌, arith,
  if◌then◌else◌, ◌==◌, nat_eq, refl, ap, Bool-cases, Option-cases, beq_refl, map, filter, ok, err,
  value_error, assertion_error, subst, sym, ◌∙◌, All, All-append, All-imp, elem, IsDistinct,
}
use trust_and_safety_demo.Base.Dict.{Dict, get, keys}
use trust_and_safety_demo.Sorter.Defs.{
  ℤ, pos, negsuc, NodeInfo, TopologicalSorter, empty, is_zero, is_out, add, prepare, get_ready,
  done_one,
}
use trust_and_safety_demo.Sorter.Balance.{credit}
use trust_and_safety_demo.Sorter.Adding.{status, status-some, add-IsBalanced}
use trust_and_safety_demo.Sorter.Releasing.{AreReady}
use trust_and_safety_demo.Sorter.Covering.{is_finished, cover}
use trust_and_safety_demo.Sorter.Growing.{add-Grown}
use trust_and_safety_demo.Sorter.Passing.{IsSound, get_ready_total}
use trust_and_safety_demo.Sorter.Finishing.{is_passed_out, done_one_total}

-- The edges (predecessor, node) that `add` has declared, and the nodes that are done.
pub record History : Type 0 where
  pub edges : List (ℕ × ℕ)
  pub finished : List ℕ

-- What a run leads to.
pub data Reach : TopologicalSorter → History → Type 0 where
  start : Reach empty (record { edges = []; finished = [] })
  adding :
      {s s' : TopologicalSorter} {h : History} (node : ℕ) (preds : List ℕ)
      → Reach s h
      → add node preds s ≡ ok s'
      → Reach s' (record h { edges = h.edges ++ map (λ p. (p, node)) preds })
  preparing : {s : TopologicalSorter} {h : History} → Reach s h → Reach (prepare s) h
  passing :
      {s s' : TopologicalSorter} {h : History} (ready : List ℕ)
      → Reach s h
      → get_ready s ≡ ok (ready, s')
      → Reach s' h
  finishing :
      {s s' : TopologicalSorter} {h : History} (node : ℕ)
      → Reach s h
      → s.needs_prepare ≡ false
      → done_one node s ≡ ok s'
      → Reach s' (record h { finished = node ∷ h.finished })

is_zero_lem : (z : ℤ) → is_zero z ≡ true → z ≡ pos 0
unfolding is_zero
is_zero_lem (pos zero) h = refl
is_zero_lem (pos (suc n)) h = cc
is_zero_lem (negsuc n) h = cc

pub record Inv (s : TopologicalSorter) (h : History) : Type 0 where
  pub sound : IsSound s
  pub distinct : IsDistinct (keys s.node2info)
  pub covered : All (λ e. 1 ≤ cover e.1 (get e.0 s.node2info)) h.edges
  pub finished : (p : ℕ) → is_finished (get p s.node2info) ≡ elem p h.finished

All-map :
    (P : ℕ × ℕ → Type 0) (node : ℕ) (preds : List ℕ)
    → All (λ p. P (p, node)) preds
    → All P (map (λ p. (p, node)) preds)
All-map P node [] h = tt
All-map P node (p ∷ preds) h = (h.0, All-map P node preds h.1)

pub add-Inv :
    (node : ℕ) (preds : List ℕ) (s s' : TopologicalSorter) (h : History)
    → Inv s h
    → add node preds s ≡ ok s'
    → Inv s' (record h { edges = h.edges ++ map (λ p. (p, node)) preds })
add-Inv node preds s s' h i e =
    let (g, same) = add-Grown node preds s s' e in
    record {
      sound = record {
        balanced = add-IsBalanced node preds s s' i.sound.balanced e;
        ready =
            subst (AreReady s'.node2info) (sym same)
              (All-imp _ _ (λ n. g.statuses n (pos 0)) s.ready_nodes i.sound.ready);
      };
      distinct = g.keeps.distinct i.distinct;
      covered =
          All-append _ h.edges (map (λ p. (p, node)) preds)
            (All-imp _ _ (λ x. g.keeps.covers x.0 x.1) h.edges i.covered)
            (All-map _ node preds g.edges);
      finished = λ p. g.keeps.finished p ∙ i.finished p;
    }

-- Every entry of a dict is what its key gives.
get-weaken :
    (k : ℕ) (i : NodeInfo) (d os : Dict ℕ NodeInfo)
    → elem k (keys os) ≡ false
    → All (λ p. get p.0 d ≡ some p.1) os
    → All (λ p. get p.0 ((k, i) ∷ d) ≡ some p.1) os
unfolding get
get-weaken k i d [] n h = tt
get-weaken k i d ((j, w) ∷ os) n h =
    (ground (arith, h.0, n), get-weaken k i d os (ground (arith, n)) h.1)

pub get-entries : (d : Dict ℕ NodeInfo) → IsDistinct (keys d) → All (λ p. get p.0 d ≡ some p.1) d
get-entries [] u = tt
get-entries ((k, i) ∷ d) u =
    (unfold get in rw (beq_refl k) refl, get-weaken k i d d u.0 (get-entries d u.1))

status-get :
    (k : ℕ) (i : NodeInfo) (d : Dict ℕ NodeInfo)
    → get k d ≡ some i
    → status k d ≡ some i.npredecessors
unfolding status
status-get k i d e = rw (status, e) refl

pub credit_zero : (d : Dict ℕ NodeInfo) (n : ℕ) → status n d ≡ some (pos 0) → credit (get n d) ≡ 0
unfolding credit
credit_zero d n h = let (i, e, z) = status-some n d (pos 0) h in rw (e, credit, z) refl

-- `done` refuses a node that is not out, whatever its count is.
refused :
    (z : ℤ) (s' : TopologicalSorter)
    → (elim z [
      | pos _ ↦ err value_error
      | negsuc n ↦ if n == 1 then err value_error else err assertion_error
    ])
      ≡ ok s'
    → ⊥
refused (pos n) s' e = cc
refused (negsuc n) s' e = ground arith

waiting_none :
    (d os : Dict ℕ NodeInfo)
    → All (λ p. get p.0 d ≡ some p.1) os
    → AreReady d (map (λ p. p.0) (filter (λ p. is_zero p.1.npredecessors) os))
waiting_none d [] h = tt
waiting_none d ((k, i) ∷ os) h = elim (Bool-cases (is_zero i.npredecessors)) [
  | inl none_left ↦ rw none_left (
    status-get k i d h.0 ∙ ap some (is_zero_lem i.npredecessors none_left),
    waiting_none d os h.1,
  )
  | inr some_left ↦ rw some_left (waiting_none d os h.1)
]

pub prepare-idle : (s : TopologicalSorter) → s.needs_prepare ≡ false → prepare s ≡ s
unfolding prepare
prepare-idle s e = rw (prepare, e) refl

pub prepare-Inv : (s : TopologicalSorter) (h : History) → Inv s h → Inv (prepare s) h
unfolding prepare
prepare-Inv s h i = elim (Bool-cases s.needs_prepare) [
  | inl needed ↦ rw needed (record {
    sound = record {
      balanced = i.sound.balanced;
      ready = waiting_none s.node2info s.node2info (get-entries s.node2info i.distinct);
    };
    distinct = i.distinct;
    covered = i.covered;
    finished = i.finished;
  })
  | inr needless ↦ subst (λ t. Inv t h) (sym (prepare-idle s needless)) i
]

pub get_ready-prepared :
    (s : TopologicalSorter) (out : List ℕ × TopologicalSorter)
    → get_ready s ≡ ok out
    → s.needs_prepare ≡ false
unfolding get_ready
get_ready-prepared s out e = elim (Bool-cases s.needs_prepare) [
  | inl needed ↦ absurd (ground arith)
  | inr prepared ↦ prepared
]

pub get_ready-Inv :
    (s s' : TopologicalSorter) (h : History) (ready : List ℕ)
    → Inv s h
    → get_ready s ≡ ok (ready, s')
    → Inv s' h × (ready ≡ s.ready_nodes)
get_ready-Inv s s' h ready i e =
    let (t, e', sound, keeps, out, none_left) =
      get_ready_total s i.sound (get_ready-prepared s (ready, s') e) in
    let same : ok (s.ready_nodes, t) ≡ ok (ready, s') = sym e' ∙ e in
    let state : t ≡ s' = ground arith in
    (
      subst (λ u. Inv u h) state
          (record {
            sound = sound;
            distinct = keeps.distinct i.distinct;
            covered = All-imp _ _ (λ x. keeps.covers x.0 x.1) h.edges i.covered;
            finished = λ p. keeps.finished p ∙ i.finished p;
          }),
      ground arith,
    )

pub done_one-passed_out :
    (node : ℕ) (s s' : TopologicalSorter) → done_one node s ≡ ok s' → is_passed_out node s ≡ true
unfolding done_one is_passed_out
done_one-passed_out node s s' e = elim (Option-cases (get node s.node2info)) [
  | inl none_there ↦ absurd (ground arith)
  | inr (i, there) ↦ elim (Bool-cases (is_out i.npredecessors)) [
    | inl out ↦ rw (is_passed_out, there) out
    | inr other ↦
        absurd (let e' = rw (done_one, there, other) at e in refused i.npredecessors s' e')
  ]
]

pub done_one-Inv :
    (node : ℕ) (s s' : TopologicalSorter) (h : History)
    → Inv s h
    → done_one node s ≡ ok s'
    → Inv s' (record h { finished = node ∷ h.finished })
done_one-Inv node s s' h i e =
    let (t, e', sound, f) = done_one_total node s i.sound (done_one-passed_out node s s' e) in
    let same : ok t ≡ ok s' = sym e' ∙ e in
    let state : t ≡ s' = ground arith in
    subst (λ u. Inv u (record h { finished = node ∷ h.finished })) state
      (record {
        sound = sound;
        distinct = f.distinct i.distinct;
        covered = All-imp _ _ (λ x. f.covers x.0 x.1) h.edges i.covered;
        finished = λ p. f.finished p ∙ ap (λ b. node == p || b) (i.finished p);
      })
