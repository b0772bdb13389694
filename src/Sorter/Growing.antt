-- ===== src/Sorter/Growing.antt =====
-- `add` keeps the edges and the nodes that there are.
use trust_and_safety_demo.Base.{
  ℕ, ◌≤◌, ◌≡◌, refl, sym, subst, arith, none, some, List, nat_eq, ok, All, All-imp,
}
use trust_and_safety_demo.Base.Dict.{Dict, get, put}
use trust_and_safety_demo.Sorter.Defs.{
  ℤ, pos, NodeInfo, TopologicalSorter, is_done, get_nodeinfo, link_all, raise_count, add,
}
use trust_and_safety_demo.Sorter.Adding.{
  status, status-put, status-ne, status-get_nodeinfo, link_all_books, add_start, raise_count_lem,
}
use trust_and_safety_demo.Sorter.Covering.{
  cover, Keeps, Keeps-trans, Keeps-count, get_nodeinfo-Keeps, link_all-Keeps,
}

pub record Grown (node : ℕ) (preds : List ℕ) (d d' : Dict ℕ NodeInfo) : Type 0 where
  pub keeps : Keeps d d'
  pub edges : All (λ p. 1 ≤ cover node (get p d')) preds
  pub statuses : (n : ℕ) (z : ℤ) → status n d ≡ some z → status n d' ≡ some z

grow :
    (node : ℕ) (preds : List ℕ) (d : Dict ℕ NodeInfo)
    → get node d ≡ none
    → Grown node preds d (raise_count node (link_all node preds ((get_nodeinfo node d).1, 0)))
grow node preds d new =
    let start = (get_nodeinfo node d).1 in
    let l = link_all_books node preds (start, 0) in
    let (linked, edges) = link_all-Keeps node preds (start, 0) in
    let num = (link_all node preds (start, 0)).1 in
    let d1 = (link_all node preds (start, 0)).0 in
    let (i, e, z, written) =
      raise_count_lem node num d1 (l.keeps node (pos 0) (add_start node d new)) in
    let paid : NodeInfo = record i { npredecessors = pos num } in
    let raised : Keeps d1 (put node paid d1) =
      Keeps-count node i paid d1 e (rw z (unfold is_done in refl)) (unfold is_done in refl) refl in
    subst (Grown node preds d) (sym written) (record {
      keeps = Keeps-trans (get_nodeinfo-Keeps node d) (Keeps-trans linked raised);
      edges =
          All-imp (λ p. 1 ≤ cover node (get p d1)) (λ p. 1 ≤ cover node (get p (put node paid d1)))
            (λ p c. raised.covers p node c) preds edges;
      statuses = λ n w h.
          rw (status-put, status-ne node n d w new h)
            (l.keeps n w (status-get_nodeinfo node n d w h));
    })

pub add-Grown :
    (node : ℕ) (preds : List ℕ) (s s' : TopologicalSorter)
    → add node preds s ≡ ok s'
    → Grown node preds s.node2info s'.node2info × (s'.ready_nodes ≡ s.ready_nodes)
unfolding add
add-Grown node preds s s' h =
    let new : get node s.node2info ≡ none = ground arith in
    let done : raise_count node (link_all node preds ((get_nodeinfo node s.node2info).1, 0))
        ≡ s'.node2info =
      ground arith in
    (subst (Grown node preds s.node2info) done (grow node preds s.node2info new), ground arith)
