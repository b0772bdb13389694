-- ===== src/Sorter/Progress.antt =====
-- `done` in a run whose edges lead to younger nodes, and where such a run stops.
use trust_and_safety_demo.Base.{
  ℕ, zero, suc, ◌≤◌, ◌<◌, ◌≡◌, inl, inr, true, false, some, List, [], ◌∷◌, arith, ◌==◌, nat_eq,
  refl, sym, subst, Bool-cases, Option-cases, ok, All, elem, elem-All, count, ◌∙◌, >>=-eq-ok, ◌+◌,
  leb,
}
use trust_and_safety_demo.Base.Dict.{Dict, get, put, get-put, contains}
use trust_and_safety_demo.Sorter.Defs.{
  ℤ, pos, negsuc, node_out, node_done, NodeInfo, TopologicalSorter, is_out, is_done, decrement,
  release, release_all, done_one,
}
use trust_and_safety_demo.Sorter.Balance.{outstanding, share, credit}
use trust_and_safety_demo.Sorter.Adding.{status, status-put, status-some}
use trust_and_safety_demo.Sorter.Covering.{is_finished}
use trust_and_safety_demo.Sorter.Passing.{release_all_total}
use trust_and_safety_demo.Sorter.Finishing.{finished-Owing, finished-AreReady}
use trust_and_safety_demo.Sorter.Entries.{AllAt}
use trust_and_safety_demo.Sorter.Settling.{
  is_proper, contains-put, IsEntry, IsQueued, status-found, release_all-Settled,
}
use trust_and_safety_demo.Sorter.Run.{Reach-Inv}
use trust_and_safety_demo.Sorter.Calls.{History, finishing, get-entries}
use trust_and_safety_demo.Sorter.Living.{IsLive}

-- The entries once the node `k` is done.
done_entries :
    (us outs : List ℕ) (k : ℕ) (i : NodeInfo) (d : Dict ℕ NodeInfo)
    → AllAt (IsEntry us (k ∷ outs)) d
    → get k d ≡ some i
    → AllAt (IsEntry us outs) (put k (record i { npredecessors = node_done }) d)
unfolding AllAt is_out is_proper
done_entries us outs k i d a found p j e = elim (Bool-cases (k == p)) [
  | inl same ↦
      let eq : k ≡ p = ground arith in
      let e' : some (record i { npredecessors = node_done }) ≡ some j = rw (get-put, same) at e in
      let eq' : record i { npredecessors = node_done } ≡ j = ground arith in
      let old : IsEntry us (k ∷ outs) k i = a k i found in
      subst (λ q. IsEntry us outs q j) eq
        (subst (IsEntry us outs k) eq'
          (record { known = old.known; proper = refl; ascending = old.ascending; out = λ o. cc }))
  | inr other ↦
      let old : IsEntry us (k ∷ outs) p j = a p j (rw (get-put, other) at e) in
      record {
        known = old.known;
        proper = old.proper;
        ascending = old.ascending;
        out = λ o. ground (arith, old.out o, other);
      }
]

done_out :
    (k : ℕ) (i : NodeInfo) (d : Dict ℕ NodeInfo) (outs : List ℕ)
    → elem k outs ≡ false
    → All (λ n. status n d ≡ some node_out) outs
    → All (λ n. status n (put k i d) ≡ some node_out) outs
done_out k i d [] h a = tt
done_out k i d (n ∷ outs) h a =
    (ground (arith, a.0, h, status-put n k i d), done_out k i d outs (ground arith) a.1)

done_queue :
    (k : ℕ) (i : NodeInfo) (d : Dict ℕ NodeInfo) (ready : List ℕ)
    → IsQueued d ready
    → IsQueued (put k (record i { npredecessors = node_done }) d) ready
done_queue k i d ready q = record {
  waiting = λ n z. elim (Bool-cases (k == n)) [
    | inl same ↦ let z' = rw (status-put, same) at z in absurd (ground arith)
    | inr other ↦ q.waiting n (rw (status-put, other) at z)
  ];
  distinct = q.distinct;
}

-- `done` keeps the nodes.
release_all-contains :
    (n : ℕ) (rest : List ℕ) (acc acc' : Dict ℕ NodeInfo × List ℕ)
    → release_all rest acc ≡ ok acc'
    → contains n acc'.0 ≡ contains n acc.0
unfolding release_all release
release_all-contains n [] acc acc' e =
    let same : acc ≡ acc' = ground arith in
    subst (λ (a : Dict ℕ NodeInfo × List ℕ). contains n a.0 ≡ contains n acc.0) same refl
release_all-contains n (x ∷ rest) acc acc' e =
    let (mid, run, e') = >>=-eq-ok (release x acc) _ e in
    release_all-contains n rest mid acc' e' ∙ elim (Option-cases (get x acc.0)) [
      | inl missing ↦ absurd (let run' = rw (release, missing) at run in ground arith)
      | inr (i, found) ↦
          let j : NodeInfo = record i { npredecessors = decrement i.npredecessors } in
          let run' = rw (release, found) at run in
          let same : put x j acc.0 ≡ mid.0 = ground arith in
          subst (λ d. contains n d ≡ contains n acc.0) same (contains-put n x i j acc.0 found)
    ]

-- `done` of a node that was passed out.
pub done_one-IsLive :
    (us outs : List ℕ) (k : ℕ) (s : TopologicalSorter) (h : History)
    → IsLive us (k ∷ outs) s h
    → s.needs_prepare ≡ false
    → (s' : TopologicalSorter) × (done_one k s ≡ ok s')
      × IsLive us outs s' (record h { finished = k ∷ h.finished })
      × (s'.needs_prepare ≡ false)
      × ((n : ℕ) → contains n s'.node2info ≡ contains n s.node2info)
unfolding done_one is_out
done_one-IsLive us outs k s h l p =
    let (i, found, z) = status-some k s.node2info node_out l.out.0 in
    let o : is_out i.npredecessors ≡ true = rw z refl in
    let inv = Reach-Inv s h l.reach in
    let d : Dict ℕ NodeInfo = put k (record i { npredecessors = node_done }) s.node2info in
    let owing = finished-Owing k i s.node2info found o inv.sound.balanced in
    let ready =
      finished-AreReady k i s.node2info found o inv.sound.balanced s.ready_nodes inv.sound.ready in
    let (acc, run, x, y) = release_all_total i.successors d s.ready_nodes owing ready in
    let settled =
      release_all-Settled us outs i.successors d s.ready_nodes owing
        (record {
          ready = ready;
          queued = done_queue k i s.node2info s.ready_nodes (l.queued p);
          entries = done_entries us outs k i s.node2info l.entries found;
          out =
              done_out k (record i { npredecessors = node_done }) s.node2info outs l.distinct.0
                l.out.1;
        })
        acc run in
    let s' : TopologicalSorter = record s {
      node2info = acc.0;
      ready_nodes = acc.1;
      nfinished = s.nfinished + 1;
    } in
    let e : done_one k s ≡ ok s' = rw (done_one, found, o, run) refl in
    (
      s',
      e,
      record {
        reach = finishing k l.reach p e;
        entries = settled.entries;
        out = settled.out;
        distinct = l.distinct.1;
        queued = λ w. settled.queued;
      },
      p,
      λ n.
          release_all-contains n i.successors (d, s.ready_nodes) acc run
          ∙ contains-put n k i (record i { npredecessors = node_done }) s.node2info found,
    )

-- What a node waits for is owed by some node.
owed :
    (n : ℕ) (d os : Dict ℕ NodeInfo)
    → All (λ p. get p.0 d ≡ some p.1) os
    → 1 ≤ outstanding n os
    → (p : ℕ) × (j : NodeInfo) × (get p d ≡ some j) × (1 ≤ share n (some j))
unfolding outstanding
owed n d [] a h = absurd (omega arith)
owed n d ((k, i) ∷ os) a h = elim (Bool-cases (leb 1 (share n (some i)))) [
  | inl here ↦ (k, i, a.0, ground arith)
  | inr later ↦ owed n d os a.1 (ground arith)
]

count-elem : (n : ℕ) (xs : List ℕ) → 1 ≤ count n xs → elem n xs ≡ true
count-elem n [] h = absurd (omega arith)
count-elem n (x ∷ xs) h = ground (arith, count-elem n xs)

share-pending :
    (n : ℕ) (j : NodeInfo)
    → 1 ≤ share n (some j)
    → (is_done j.npredecessors ≡ false) × (elem n j.successors ≡ true)
unfolding share
share-pending n j h = elim (Bool-cases (is_done j.npredecessors)) [
  | inl d ↦ absurd (let h' = rw (share, d) at h in omega arith)
  | inr w ↦ (w, count-elem n j.successors (rw (share, w) at h))
]

-- A run that waits for no `done` and has nothing queued has finished every node.
module _ (us : List ℕ) (s : TopologicalSorter) (h : History) (l : IsLive us [] s h)
    (p : s.needs_prepare ≡ false) (none_left : s.ready_nodes ≡ []) where
  finished_count :
      (n : ℕ) (i : NodeInfo) (z : ℤ)
      → get n s.node2info ≡ some i
      → i.npredecessors ≡ z
      → ((m : ℕ)
          → m < n
          → (j : NodeInfo) → get m s.node2info ≡ some j
          → is_done j.npredecessors ≡ true)
      → is_done z ≡ true
  unfolding AllAt is_done is_out is_proper credit
  finished_count n i (pos zero) e w ih =
      let st : status n s.node2info ≡ some (pos 0) = rw (status-found n s.node2info i e, w) refl in
      absurd (ground (arith, (l.queued p).waiting n st, none_left))
  finished_count n i (pos (suc x)) e w ih =
      let inv = Reach-Inv s h l.reach in
      let c : credit (get n s.node2info) ≡ suc x = rw (e, credit, w) refl in
      let (m, j, there, owes) =
        owed n s.node2info s.node2info (get-entries s.node2info inv.distinct)
          (omega (arith, inv.sound.balanced n, c)) in
      let (pending, listed) = share-pending n j owes in
      let le : m < n =
        elem-All (λ k. m < k) j.successors (l.entries m j there).ascending n listed in
      absurd (ground (arith, ih m le j there, pending))
  finished_count n i (negsuc zero) e w ih =
      absurd (ground (arith, (l.entries n i e).out (rw w refl)))
  finished_count n i (negsuc (suc zero)) e w ih = refl
  finished_count n i (negsuc (suc (suc x))) e w ih =
      let proper = (l.entries n i e).proper in absurd (let q = rw w at proper in cc)

  below_finished :
      (b n : ℕ)
      → n < b
      → (i : NodeInfo) → get n s.node2info ≡ some i
      → is_done i.npredecessors ≡ true
  below_finished zero n le i e = absurd (omega arith)
  below_finished (suc b) n le i e =
      finished_count n i i.npredecessors e refl
        (λ m less j there. below_finished b m (omega arith) j there)

  pub all_finished : (n : ℕ) → contains n s.node2info ≡ true → elem n h.finished ≡ true
  unfolding is_finished
  all_finished n c = elim (Option-cases (get n s.node2info)) [
    | inl e ↦ absurd (ground arith)
    | inr (i, e) ↦
        let f = (Reach-Inv s h l.reach).finished n in
        let done : is_finished (get n s.node2info) ≡ true =
          rw (e, is_finished) (below_finished (suc n) n (omega arith) i e) in
        sym f ∙ done
  ]
