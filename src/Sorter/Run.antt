-- ===== src/Sorter/Run.antt =====
-- In any run of the calls of a sorter the invariant of Calls holds.
use trust_and_safety_demo.Base.{
  ℕ, ◌≤◌, ◌≡◌, true, Option, none, some, List, [], arith, nat_eq, refl, ok, sym, ◌∙◌, All, All-imp,
  elem,
}
use trust_and_safety_demo.Base.Dict.{get}
use trust_and_safety_demo.Sorter.Defs.{NodeInfo, TopologicalSorter, empty, get_ready}
use trust_and_safety_demo.Sorter.Balance.{share-le-outstanding, credit, outstanding, share}
use trust_and_safety_demo.Sorter.Releasing.{ready_status}
use trust_and_safety_demo.Sorter.Covering.{is_finished, cover}
use trust_and_safety_demo.Sorter.Calls.{
  History, Inv, Reach, add-Inv, adding, credit_zero, done_one-Inv, finishing, get_ready-Inv,
  passing, prepare-Inv, preparing, start,
}

empty-Inv : Inv empty (record { edges = []; finished = [] })
unfolding outstanding credit get is_finished
empty-Inv = record {
  sound = record { balanced = λ n. refl; ready = tt };
  distinct = tt;
  covered = tt;
  finished = λ p. refl;
}

pub Reach-Inv : (s : TopologicalSorter) (h : History) → Reach s h → Inv s h
Reach-Inv _ _ start = empty-Inv
Reach-Inv _ _ (adding {s} {s'} {h} node preds r e) = add-Inv node preds s s' h (Reach-Inv s h r) e
Reach-Inv _ _ (preparing {s} {h} r) = prepare-Inv s h (Reach-Inv s h r)
Reach-Inv _ _ (passing {s} {s'} {h} ready r e) = (get_ready-Inv s s' h ready (Reach-Inv s h r) e).0
Reach-Inv _ _ (finishing {s} {s'} {h} node r p e) = done_one-Inv node s s' h (Reach-Inv s h r) e

-- An edge that is covered and owes its node nothing has a predecessor that is done.
cover-share : (n : ℕ) (o : Option NodeInfo) → 1 ≤ cover n o → share n o ≡ 0 → is_finished o ≡ true
unfolding cover share is_finished
cover-share n none c z = absurd (omega (arith, c))
cover-share n (some i) c z = ground arith

-- In any run of the calls of a sorter, a node that `get_ready` passes out has only predecessors that
-- `done` has finished, among all the edges that `add` has declared.
pub get_ready-after_predecessors :
    (s s' : TopologicalSorter) (h : History) (ready : List ℕ)
    → Reach s h
    → get_ready s ≡ ok (ready, s')
    → All (λ e. elem e.1 ready ≡ true → elem e.0 h.finished ≡ true) h.edges
get_ready-after_predecessors s s' h ready r e =
    let i = Reach-Inv s h r in
    let (after, same) = get_ready-Inv s s' h ready i e in
    All-imp _ _
      (λ x c t.
        let status0 = ready_status s.node2info s.ready_nodes i.sound.ready x.1 (rw same at t) in
        let b = i.sound.balanced x.1 in
        let none_owed = credit_zero s.node2info x.1 status0 in
        let le = share-le-outstanding x.1 x.0 s.node2info in
        sym (i.finished x.0)
        ∙ cover-share x.1 (get x.0 s.node2info) c (omega (arith, b, none_owed, le)))
      h.edges i.covered
