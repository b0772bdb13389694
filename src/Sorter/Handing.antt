-- ===== src/Sorter/Handing.antt =====
-- `get_ready` in a run whose edges lead to younger nodes.
use trust_and_safety_demo.Base.{
  ℕ, ◌≡◌, inl, inr, true, false, some, List, [], ◌∷◌, arith, nat_eq, refl, subst, Bool-cases,
  Option-cases, ok, All, All-elem, elem, ◌∙◌, length, ◌+◌,
}
use trust_and_safety_demo.Base.Dict.{Dict, get, put, contains}
use trust_and_safety_demo.Sorter.Defs.{
  node_out, NodeInfo, TopologicalSorter, pass_out, pass_all_out, get_ready,
}
use trust_and_safety_demo.Sorter.Adding.{status}
use trust_and_safety_demo.Sorter.Passing.{pass_all_out_total, pass_all_out-status, ready-idle}
use trust_and_safety_demo.Sorter.Entries.{AllAt, AllAt-put}
use trust_and_safety_demo.Sorter.Settling.{is_proper, contains-put, IsEntry}
use trust_and_safety_demo.Sorter.Run.{Reach-Inv}
use trust_and_safety_demo.Sorter.Calls.{History, passing}
use trust_and_safety_demo.Sorter.Living.{IsLive}

pass_all_out-entries :
    (us outs ready : List ℕ) (d d' : Dict ℕ NodeInfo)
    → All (λ n. elem n outs ≡ true) ready
    → AllAt (IsEntry us outs) d
    → pass_all_out ready d ≡ ok d'
    → AllAt (IsEntry us outs) d'
unfolding pass_all_out pass_out AllAt is_proper
pass_all_out-entries us outs [] d d' h a e =
    let same : d ≡ d' = ground arith in subst (AllAt (IsEntry us outs)) same a
pass_all_out-entries us outs (k ∷ ready) d d' h a e = elim (Option-cases (get k d)) [
  | inl missing ↦ absurd (let e' = rw (pass_out, missing) at e in ground arith)
  | inr (i, found) ↦
      let old : IsEntry us outs k i = a k i found in
      let j : NodeInfo = record i { npredecessors = node_out } in
      pass_all_out-entries us outs ready (put k j d) d' h.1
        (AllAt-put (IsEntry us outs) k j d a
          (record { known = old.known; proper = refl; ascending = old.ascending; out = λ o. h.0 }))
        (rw (pass_out, found) at e)
]

pass_all_out-contains :
    (n : ℕ) (ready : List ℕ) (d d' : Dict ℕ NodeInfo)
    → pass_all_out ready d ≡ ok d'
    → contains n d' ≡ contains n d
unfolding pass_all_out pass_out
pass_all_out-contains n [] d d' e = let same : d ≡ d' = ground arith in rw same refl
pass_all_out-contains n (k ∷ ready) d d' e = elim (Option-cases (get k d)) [
  | inl missing ↦ absurd (let e' = rw (pass_out, missing) at e in ground arith)
  | inr (i, found) ↦
      let j : NodeInfo = record i { npredecessors = node_out } in
      pass_all_out-contains n ready (put k j d) d' (rw (pass_out, found) at e)
      ∙ contains-put n k i j d found
]

entries_none :
    (us outs : List ℕ) (d : Dict ℕ NodeInfo) → AllAt (IsEntry us []) d → AllAt (IsEntry us outs) d
unfolding AllAt
entries_none us outs d a p i e =
    let old : IsEntry us [] p i = a p i e in
    record {
      known = old.known;
      proper = old.proper;
      ascending = old.ascending;
      out = λ o. absurd (ground (arith, old.out o));
    }

pub get_ready-IsLive :
    (us : List ℕ) (s : TopologicalSorter) (h : History)
    → IsLive us [] s h
    → s.needs_prepare ≡ false
    → (s' : TopologicalSorter) × (get_ready s ≡ ok (s.ready_nodes, s'))
      × IsLive us s.ready_nodes s' h
      × (s'.needs_prepare ≡ false)
      × ((n : ℕ) → contains n s'.node2info ≡ contains n s.node2info)
      × (s'.ready_nodes ≡ [])
unfolding get_ready
get_ready-IsLive us s h l p =
    let sound = (Reach-Inv s h l.reach).sound in
    let (d, run, kept) =
      pass_all_out_total s.ready_nodes s.node2info sound.balanced
        (ready-idle s.node2info s.ready_nodes sound.ready) in
    let q = l.queued p in
    let s' : TopologicalSorter = record s {
      node2info = d;
      ready_nodes = [];
      npassedout = s.npassedout + length s.ready_nodes;
    } in
    let e : get_ready s ≡ ok (s.ready_nodes, s') = rw (p, run) refl in
    let st = pass_all_out-status s.ready_nodes s.node2info d run in
    (
      s',
      e,
      record {
        reach = passing s.ready_nodes l.reach e;
        entries =
            pass_all_out-entries us s.ready_nodes s.ready_nodes s.node2info d
              (All-elem (λ n. elem n s.ready_nodes ≡ true) s.ready_nodes (λ n m. m))
              (entries_none us s.ready_nodes s.node2info l.entries) run;
        out = All-elem (λ n. status n d ≡ some node_out) s.ready_nodes (λ n m. rw (st n, m) refl);
        distinct = q.distinct;
        queued = λ w. record {
          waiting = λ n z. elim (Bool-cases (elem n s.ready_nodes)) [
            | inl there ↦ absurd (ground (arith, st n, z, there))
            | inr other ↦ absurd (ground (arith, st n, z, other, q.waiting n))
          ];
          distinct = tt;
        };
      },
      p,
      λ n. pass_all_out-contains n s.ready_nodes s.node2info d run,
      refl,
    )
