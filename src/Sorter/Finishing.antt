-- ===== src/Sorter/Finishing.antt =====
-- `done` of a node, as a whole.
use trust_and_safety_demo.Base.{
  ℕ, zero, suc, ◌+◌, ◌≤◌, ◌≡◌, inl, inr, Bool, true, false, ◌||◌, none, some, List, [], ◌∷◌, arith,
  ◌==◌, nat_eq, count, refl, Bool-cases, Option-cases, ok, ◌∙◌, IsDistinct,
}
use trust_and_safety_demo.Base.Dict.{Dict, get, put, get-put, keys, IsDistinct-keys-put}
use trust_and_safety_demo.Sorter.Defs.{
  ℤ, pos, negsuc, node_out, node_done, NodeInfo, TopologicalSorter, is_done, is_out, done_one,
}
use trust_and_safety_demo.Sorter.Balance.{credit, share, outstanding, outstanding-put, credit-put}
use trust_and_safety_demo.Sorter.Adding.{status, status-put, IsBalanced}
use trust_and_safety_demo.Sorter.Covering.{is_finished, cover}
use trust_and_safety_demo.Sorter.Releasing.{AreReady, Owing}
use trust_and_safety_demo.Sorter.Passing.{IsSound, release_all_total}

is_out_lem : (z : ℤ) → is_out z ≡ true → z ≡ node_out
unfolding is_out
is_out_lem (pos n) h = cc
is_out_lem (negsuc zero) h = refl
is_out_lem (negsuc (suc n)) h = cc

-- `done` of a node that is out.
module _ (k : ℕ) (i : NodeInfo) (d : Dict ℕ NodeInfo) (e : get k d ≡ some i)
    (o : is_out i.npredecessors ≡ true) (b : IsBalanced d) where
  abbrev pub finished_info : NodeInfo
  finished_info = record i { npredecessors = node_done }

  pub finished-Owing : Owing i.successors (put k finished_info d)
  finished-Owing m =
      let z = is_out_lem i.npredecessors o in
      let sums : outstanding m (put k finished_info d) + share m (some i)
          ≡ outstanding m d + share m (some finished_info) =
        rw e at (outstanding-put m k finished_info d) in
      let before : share m (some i) ≡ count m i.successors = unfold share is_done in rw z refl in
      let after : share m (some finished_info) ≡ 0 = unfold share is_done in refl in
      elim (Bool-cases (k == m)) [
        | inl same ↦
            let eq : k ≡ m = ground arith in
            let e' : get m d ≡ some i = rw (← eq) e in
            let nothing : credit (get m d) ≡ 0 = rw e' (unfold credit in rw z refl) in
            rw (credit-put, same) (unfold credit in omega (arith, b m))
        | inr other ↦ rw (credit-put, other) (omega (arith, b m))
      ]

  pub finished-AreReady :
      (ready : List ℕ) → AreReady d ready → AreReady (put k finished_info d) ready
  finished-AreReady [] r = tt
  finished-AreReady (m ∷ ready) r = (
    elim (Bool-cases (k == m)) [
      | inl same ↦
          let eq : k ≡ m = ground arith in absurd (unfold status is_out in ground (arith, r.0))
      | inr other ↦ rw (status-put, other) r.0
    ],
    finished-AreReady ready r.1,
  )

  finished-cover : (p n : ℕ) → 1 ≤ cover n (get p d) → 1 ≤ cover n (get p (put k finished_info d))
  finished-cover p n h = elim (Bool-cases (k == p)) [
    | inl same ↦ rw (get-put, same) (unfold cover is_done in omega arith)
    | inr other ↦ rw (get-put, other) h
  ]

  finished-is_finished :
      (p : ℕ) → is_finished (get p (put k finished_info d)) ≡ (k == p || is_finished (get p d))
  finished-is_finished p = elim (Bool-cases (k == p)) [
    | inl same ↦ rw (get-put, same) (unfold is_finished is_done in refl)
    | inr other ↦ rw (get-put, other) refl
  ]

-- What `done` of one node leaves.
pub record Finished (k : ℕ) (d d' : Dict ℕ NodeInfo) : Type 0 where
  pub covers : (p n : ℕ) → 1 ≤ cover n (get p d) → 1 ≤ cover n (get p d')
  pub finished : (p : ℕ) → is_finished (get p d') ≡ (k == p || is_finished (get p d))
  pub distinct : IsDistinct (keys d) → IsDistinct (keys d')

-- The node has been passed out and is not done.
unfoldable pub is_passed_out : ℕ → TopologicalSorter → Bool
is_passed_out k s = elim (get k s.node2info) [ none ↦ false | some i ↦ is_out i.npredecessors ]

-- `done` of a node that is out does not raise, keeps the sorter sound, finishes that node alone and
-- uncovers no edge.
pub done_one_total :
    (k : ℕ) (s : TopologicalSorter)
    → IsSound s
    → is_passed_out k s ≡ true
    → (s' : TopologicalSorter) × (done_one k s ≡ ok s')
      × IsSound s'
      × Finished k s.node2info s'.node2info
unfolding done_one is_passed_out
done_one_total k s h p = elim (Option-cases (get k s.node2info)) [
  | inl e ↦ absurd (ground arith)
  | inr (i, e) ↦
      let o : is_out i.npredecessors ≡ true = ground arith in
      let (out, e', t, r) =
        release_all_total i.successors (put k (record i { npredecessors = node_done }) s.node2info)
          s.ready_nodes (finished-Owing k i s.node2info e o h.balanced)
          (finished-AreReady k i s.node2info e o h.balanced s.ready_nodes h.ready) in
      (
        record s { node2info = out.0; ready_nodes = out.1; nfinished = s.nfinished + 1 },
        rw (done_one, e, o, e') refl,
        record { balanced = t.balanced; ready = r },
        record {
          covers =
              λ q n c. t.keeps.covers q n (finished-cover k i s.node2info e o h.balanced q n c);
          finished =
              λ q. t.keeps.finished q ∙ finished-is_finished k i s.node2info e o h.balanced q;
          distinct = λ u.
              t.keeps.distinct
                (IsDistinct-keys-put k (record i { npredecessors = node_done }) s.node2info u);
        },
      )
]
