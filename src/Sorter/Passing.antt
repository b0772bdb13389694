-- ===== src/Sorter/Passing.antt =====
-- `get_ready`, and what both it and `done` keep.
use trust_and_safety_demo.Base.{
  ℕ, zero, suc, ◌+◌, ◌≡◌, inl, inr, Bool, true, false, ◌||◌, Option, none, some, List, [], ◌∷◌,
  arith, ◌==◌, nat_eq, refl, Bool-cases, Option-cases, ok, subst, sym, All, All-imp, length, elem,
  if◌then◌else◌,
}
use trust_and_safety_demo.Base.Dict.{Dict, get, put}
use trust_and_safety_demo.Sorter.Defs.{
  ℤ, pos, negsuc, node_out, NodeInfo, TopologicalSorter, is_done, is_zero, is_out, get_ready,
  pass_out, pass_all_out, release_all,
}
use trust_and_safety_demo.Sorter.Balance.{credit, SameBooks, SameBooks-put}
use trust_and_safety_demo.Sorter.Adding.{status, status-put, IsBalanced, share-waiting}
use trust_and_safety_demo.Sorter.Covering.{Keeps, Keeps-refl, Keeps-trans, Keeps-count}
use trust_and_safety_demo.Sorter.Releasing.{AreReady, Owing, release_total}

-- What both loops keep.
pub record Sound (d d' : Dict ℕ NodeInfo) : Type 0 where
  pub balanced : IsBalanced d'
  pub keeps : Keeps d d'

-- The loop over the successors pays what is owed, without raising.
pub release_all_total :
    (rest : List ℕ) (d : Dict ℕ NodeInfo) (ready : List ℕ)
    → Owing rest d
    → AreReady d ready
    → (out : Dict ℕ NodeInfo × List ℕ) × (release_all rest (d, ready) ≡ ok out)
      × Sound d out.0
      × AreReady out.0 out.1
unfolding release_all
release_all_total [] d ready h r =
    ((d, ready), refl, record { balanced = λ m. omega (arith, h m); keeps = Keeps-refl d }, r)
release_all_total (x ∷ rest) d ready h r =
    let (acc, e, p) = release_total x rest d ready h in
    let (out, e', s, r') = release_all_total rest acc.0 acc.1 p.owing (p.ready r) in
    let step : Keeps d acc.0 = subst (Keeps d) (sym p.written) (
      Keeps-count x p.info (record p.info { npredecessors = pos p.left }) d p.found
        (rw (p.waited) (unfold is_done in refl)) (unfold is_done in refl) refl) in
    (out, rw e e', record { balanced = s.balanced; keeps = Keeps-trans step s.keeps }, r')

-- A node that is out, or that waits for nothing, is passed out without a change in the books.
pub idle : Option ℤ → Bool
idle none = false
idle (some z) = is_zero z || is_out z

idle_lem :
    (z : ℤ) (l : List ℕ)
    → idle (some z) ≡ true
    → (is_done z ≡ false) × (credit (some (record { npredecessors = z; successors = l })) ≡ 0)
unfolding idle is_zero is_out is_done credit
idle_lem (pos zero) l h = (refl, refl)
idle_lem (pos (suc n)) l h = cc
idle_lem (negsuc zero) l h = (refl, refl)
idle_lem (negsuc (suc n)) l h = cc

status-idle :
    (k : ℕ) (d : Dict ℕ NodeInfo)
    → idle (status k d) ≡ true
    → (i : NodeInfo) × (get k d ≡ some i) × (idle (some i.npredecessors) ≡ true)
unfolding status
status-idle k d h = elim (Option-cases (get k d)) [
  | inl e ↦ absurd (unfold idle in ground arith)
  | inr (i, e) ↦ (i, e, ground arith)
]

SameBooks-IsBalanced : {d d' : Dict ℕ NodeInfo} → SameBooks d d' → IsBalanced d → IsBalanced d'
SameBooks-IsBalanced s b n = omega (arith, s.debts n, s.credits n, b n)

pass_out_total :
    (k : ℕ) (d : Dict ℕ NodeInfo)
    → IsBalanced d
    → idle (status k d) ≡ true
    → (d' : Dict ℕ NodeInfo) × (pass_out k d ≡ ok d')
      × Sound d d'
      × ((n : ℕ) → idle (status n d) ≡ true → idle (status n d') ≡ true)
unfolding pass_out
pass_out_total k d b h =
    let (i, e, z) = status-idle k d h in
    let (waits, empty) = idle_lem i.npredecessors i.successors z in
    let j : NodeInfo = record i { npredecessors = node_out } in
    let out_waits : is_done j.npredecessors ≡ false = unfold is_done in refl in
    (
      put k j d,
      rw (pass_out, e) refl,
      record {
        balanced =
            SameBooks-IsBalanced
              (SameBooks-put k j d (rw (e, empty) (unfold credit in refl))
                (λ n. rw e (share-waiting n j i out_waits waits refl)))
              b;
        keeps = Keeps-count k i j d e waits out_waits refl;
      },
      λ n t. elim (Bool-cases (k == n)) [
        | inl same ↦ rw (status-put, same) (unfold idle is_zero is_out in refl)
        | inr other ↦ rw (status-put, other) t
      ],
    )

pub pass_all_out_total :
    (ready : List ℕ) (d : Dict ℕ NodeInfo)
    → IsBalanced d
    → All (λ n. idle (status n d) ≡ true) ready
    → (d' : Dict ℕ NodeInfo) × (pass_all_out ready d ≡ ok d') × Sound d d'
unfolding pass_all_out
pass_all_out_total [] d b h = (d, refl, record { balanced = b; keeps = Keeps-refl d })
pass_all_out_total (n ∷ ready) d b h =
    let (d', e, s, t) = pass_out_total n d b h.0 in
    let (d'', e', s') = pass_all_out_total ready d' s.balanced (All-imp _ _ t ready h.1) in
    (d'', rw e e', record { balanced = s'.balanced; keeps = Keeps-trans s.keeps s'.keeps })

pub ready-idle :
    (d : Dict ℕ NodeInfo) (ready : List ℕ)
    → AreReady d ready
    → All (λ n. idle (status n d) ≡ true) ready
ready-idle d ready r =
    All-imp (λ n. status n d ≡ some (pos 0)) (λ n. idle (status n d) ≡ true)
      (λ n e. rw e (unfold idle is_zero is_out in refl)) ready r

-- `get_ready` puts out all that was queued.
pub pass_all_out-status :
    (ready : List ℕ) (d d' : Dict ℕ NodeInfo)
    → pass_all_out ready d ≡ ok d'
    → (n : ℕ) → status n d' ≡ (if elem n ready then some node_out else status n d)
unfolding pass_all_out pass_out
pass_all_out-status [] d d' e n = let same : d ≡ d' = ground arith in rw same refl
pass_all_out-status (k ∷ ready) d d' e n = elim (Option-cases (get k d)) [
  | inl missing ↦ absurd (let e' = rw (pass_out, missing) at e in ground arith)
  | inr (i, found) ↦
      let j : NodeInfo = record i { npredecessors = node_out } in
      let rest = pass_all_out-status ready (put k j d) d' (rw (pass_out, found) at e) n in
      ground (arith, rest, status-put n k j d)
]

-- The invariant of a sorter between calls.
pub record IsSound (s : TopologicalSorter) : Type 0 where
  pub balanced : IsBalanced s.node2info
  pub ready : AreReady s.node2info s.ready_nodes

-- `get_ready` of a prepared, sound sorter passes out the ready nodes without raising. They are marked
-- as out, the others stay as they were, and nothing is ready any more. The sorter stays sound, no edge
-- is uncovered and no node is finished.
pub get_ready_total :
    (s : TopologicalSorter)
    → IsSound s
    → s.needs_prepare ≡ false
    → (s' : TopologicalSorter) × (get_ready s ≡ ok (s.ready_nodes, s'))
      × IsSound s'
      × Keeps s.node2info s'.node2info
      × ((n : ℕ)
          → status n s'.node2info
            ≡ (if elem n s.ready_nodes then some node_out else status n s.node2info))
      × (s'.ready_nodes ≡ [])
unfolding get_ready
get_ready_total s h p =
    let (d, e, t) =
      pass_all_out_total s.ready_nodes s.node2info h.balanced
        (ready-idle s.node2info s.ready_nodes h.ready) in
    (
      record s {
        node2info = d;
        ready_nodes = [];
        npassedout = s.npassedout + length s.ready_nodes;
      },
      rw (p, e) refl,
      record { balanced = t.balanced; ready = tt },
      t.keeps,
      pass_all_out-status s.ready_nodes s.node2info d e,
      refl,
    )
