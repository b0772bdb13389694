-- ===== src/Sorter/Living.antt =====
-- Runs of a sorter whose edges lead to younger nodes: `add` and `prepare` keep what holds of them.
use trust_and_safety_demo.Base.{
  ℕ, ◌<◌, ◌≡◌, inl, inr, true, false, none, some, List, [], ◌∷◌, ◌++◌, arith, if◌then◌else◌, ◌==◌,
  nat_eq, refl, sym, subst, Bool-cases, Option-cases, beq_refl, ok, All, All-append, All-imp, elem,
  IsDistinct, map, filter,
}
use trust_and_safety_demo.Base.Dict.{Dict, get, get-put, keys, contains}
use trust_and_safety_demo.Sorter.Defs.{
  ℤ, pos, node_out, NodeInfo, TopologicalSorter, is_zero, is_out, already_added, add, prepare,
}
use trust_and_safety_demo.Sorter.Adding.{
  status, status-some, raise_count_lem, link_all_books, add_start,
}
use trust_and_safety_demo.Sorter.Growing.{add-Grown}
use trust_and_safety_demo.Sorter.Defs.{get_nodeinfo, link_all, raise_count}
use trust_and_safety_demo.Sorter.Entries.{AllAt, Allows, add-AllAt}
use trust_and_safety_demo.Sorter.Settling.{is_proper, IsEntry, IsQueued, status-found}
use trust_and_safety_demo.Sorter.Run.{Reach-Inv}
use trust_and_safety_demo.Sorter.Calls.{History, Reach, adding, preparing, prepare-idle}

-- A run in which `outs` are the nodes that were passed out and are not done, and `us` are known.
pub record IsLive (us outs : List ℕ) (s : TopologicalSorter) (h : History) : Type 0 where
  pub reach : Reach s h
  pub entries : AllAt (IsEntry us outs) s.node2info
  pub out : All (λ n. status n s.node2info ≡ some node_out) outs
  pub distinct : IsDistinct outs
  pub queued : s.needs_prepare ≡ false → IsQueued s.node2info s.ready_nodes

-- After a call of `add`, its node is in the graph, and so is every node that was.
abbrev pub Known : ℕ → Dict ℕ NodeInfo → Dict ℕ NodeInfo → Type 0
Known node d d' = (contains node d' ≡ true) × ((p : ℕ) → contains p d ≡ true → contains p d' ≡ true)

contains-status :
    (p : ℕ) (d : Dict ℕ NodeInfo) → contains p d ≡ true → (z : ℤ) × (status p d ≡ some z)
contains-status p d h = elim (Option-cases (get p d)) [
  | inl e ↦ absurd (ground arith)
  | inr (i, e) ↦ (i.npredecessors, status-found p d i e)
]

pub status-contains :
    (p : ℕ) (d : Dict ℕ NodeInfo) (z : ℤ) → status p d ≡ some z → contains p d ≡ true
status-contains p d z h = let (i, e, same) = status-some p d z h in rw e refl

IsEntry-Allows :
    (us outs : List ℕ) (node : ℕ) (preds : List ℕ)
    → elem node us ≡ true
    → All (λ p. (elem p us ≡ true) × (p < node)) preds
    → Allows (IsEntry us outs) node preds
unfolding is_out is_proper
IsEntry-Allows us outs node preds k h = record {
  fresh = record { known = k; proper = refl; ascending = tt; out = λ e. cc };
  found =
      All-imp _ _ (λ p a. record { known = a.0; proper = refl; ascending = tt; out = λ e. cc })
        preds h;
  linked =
      All-imp _ _
        (λ p a i old. record {
          known = a.0;
          proper = old.proper;
          ascending = All-append (λ n. p < n) i.successors (node ∷ []) old.ascending (a.1, tt);
          out = old.out;
        })
        preds h;
  counted =
      λ i num old. record { known = k; proper = refl; ascending = old.ascending; out = λ e. cc };
}

raise_count-contains :
    (node num : ℕ) (d : Dict ℕ NodeInfo)
    → status node d ≡ some (pos 0)
    → contains node (raise_count node (d, num)) ≡ true
raise_count-contains node num d h =
    let (i, e, z, written) = raise_count_lem node num d h in
    rw written (rw (get-put, beq_refl node) refl)

add-Known :
    (node : ℕ) (preds : List ℕ) (s s' : TopologicalSorter)
    → add node preds s ≡ ok s'
    → Known node s.node2info s'.node2info
unfolding add
add-Known node preds s s' e =
    let new : get node s.node2info ≡ none = ground arith in
    let l = link_all_books node preds ((get_nodeinfo node s.node2info).1, 0) in
    let (d, num) = link_all node preds ((get_nodeinfo node s.node2info).1, 0) in
    let done : raise_count node (d, num) ≡ s'.node2info = ground arith in
    (
      subst (λ x. contains node x ≡ true) done
          (raise_count-contains node num d (l.keeps node (pos 0) (add_start node s.node2info new))),
      λ p h.
          let (z, st) = contains-status p s.node2info h in
          status-contains p s'.node2info z ((add-Grown node preds s s' e).0.statuses p z st),
    )

pub add-IsLive :
    (us outs : List ℕ) (node : ℕ) (preds : List ℕ) (s : TopologicalSorter) (h : History)
    → IsLive us outs s h
    → already_added node s ≡ false
    → elem node us ≡ true
    → All (λ p. (elem p us ≡ true) × (p < node)) preds
    → (s' : TopologicalSorter) × (add node preds s ≡ ok s')
      × IsLive us outs s' (record h { edges = h.edges ++ map (λ p. (p, node)) preds })
      × Known node s.node2info s'.node2info
unfolding add
add-IsLive us outs node preds s h l new k a =
    let s' : TopologicalSorter = record s {
      node2info = raise_count node (link_all node preds ((get_nodeinfo node s.node2info).1, 0));
      needs_prepare = true;
    } in
    let e : add node preds s ≡ ok s' = rw (add, new) refl in
    (
      s',
      e,
      record {
        reach = adding node preds l.reach e;
        entries =
            add-AllAt (IsEntry us outs) node preds s s' l.entries
              (IsEntry-Allows us outs node preds k a) e;
        out = All-imp _ _ (λ n. (add-Grown node preds s s' e).0.statuses n node_out) outs l.out;
        distinct = l.distinct;
        queued = λ p. cc;
      },
      add-Known node preds s s' e,
    )

-- What `prepare` queues.
elem-filter :
    (d : Dict ℕ NodeInfo) (n : ℕ)
    → elem n (map (λ p. p.0) (filter (λ p. is_zero p.1.npredecessors) d)) ≡ true
    → elem n (keys d) ≡ true
elem-filter [] n h = h
elem-filter ((k, i) ∷ d) n h = ground (arith, elem-filter d n)

status-cons :
    (n k : ℕ) (i : NodeInfo) (d : Dict ℕ NodeInfo)
    → status n ((k, i) ∷ d) ≡ (if k == n then some i.npredecessors else status n d)
unfolding status get
status-cons n k i d = ground arith

prepare_waiting :
    (d : Dict ℕ NodeInfo) (n : ℕ)
    → status n d ≡ some (pos 0)
    → elem n (map (λ p. p.0) (filter (λ p. is_zero p.1.npredecessors) d)) ≡ true
unfolding status get is_zero
prepare_waiting [] n h = cc
prepare_waiting ((k, i) ∷ d) n h = elim (Bool-cases (k == n)) [
  | inl same ↦
      let h' : some i.npredecessors ≡ some (pos 0) = rw (status-cons, same) at h in
      let z : i.npredecessors ≡ pos 0 = ground arith in rw z (rw same refl)
  | inr other ↦
      let rest = prepare_waiting d n (rw (status-cons, other) at h) in
      elim (Bool-cases (is_zero i.npredecessors)) [
        | inl zeros ↦ rw (zeros, other) rest
        | inr more ↦ rw more rest
      ]
]

prepare-IsDistinct :
    (d : Dict ℕ NodeInfo)
    → IsDistinct (keys d)
    → IsDistinct (map (λ p. p.0) (filter (λ p. is_zero p.1.npredecessors) d))
prepare-IsDistinct [] h = tt
prepare-IsDistinct ((k, i) ∷ d) h = elim (Bool-cases (is_zero i.npredecessors)) [
  | inl zeros ↦ rw zeros (ground (arith, elem-filter d k, h.0), prepare-IsDistinct d h.1)
  | inr more ↦ rw more (prepare-IsDistinct d h.1)
]

-- `prepare`.
pub prepare-IsLive :
    (us outs : List ℕ) (s : TopologicalSorter) (h : History)
    → IsLive us outs s h
    → IsLive us outs (prepare s) h
      × ((prepare s).needs_prepare ≡ false)
      × ((prepare s).node2info ≡ s.node2info)
unfolding prepare
prepare-IsLive us outs s h l = elim (Bool-cases s.needs_prepare) [
  | inl needed ↦
      let r : Reach (prepare s) h = preparing l.reach in
      rw needed (
        record {
          reach = rw (prepare, needed) at r;
          entries = l.entries;
          out = l.out;
          distinct = l.distinct;
          queued = λ p. record {
            waiting = prepare_waiting s.node2info;
            distinct = prepare-IsDistinct s.node2info (Reach-Inv s h l.reach).distinct;
          };
        },
        refl,
        refl,
      )
  | inr needless ↦
      subst
        (λ (t : TopologicalSorter).
          IsLive us outs t h × (t.needs_prepare ≡ false) × (t.node2info ≡ s.node2info))
        (sym (prepare-idle s needless)) (l, needless, refl)
]
