-- ===== src/Sorter/Adding.antt =====
-- `add` keeps the books of the sorter.
use trust_and_safety_demo.Base.{
  ℕ, zero, suc, ◌+◌, ◌≡◌, inl, inr, false, Option, none, some, List, [], ◌∷◌, ◌++◌, arith,
  if◌then◌else◌, ◌==◌, nat_eq, count-append, refl, Bool-cases, Option-cases, beq_refl, ok, subst,
  ◌∙◌,
}
use trust_and_safety_demo.Base.Dict.{Dict, get, put, get-put}
use trust_and_safety_demo.Sorter.Defs.{
  ℤ, pos, NodeInfo, TopologicalSorter, is_done, get_nodeinfo, increase, link, link_all, raise_count,
  add,
}
use trust_and_safety_demo.Sorter.Balance.{
  credit, share, outstanding, outstanding-put, credit-put, get_nodeinfo_lem,
}

-- `npredecessors` of a node, if there is one.
unfoldable pub status : ℕ → Dict ℕ NodeInfo → Option ℤ
status n d = elim (get n d) [ none ↦ none | some i ↦ some i.npredecessors ]

pub status-put :
    (n k : ℕ) (i : NodeInfo) (d : Dict ℕ NodeInfo)
    → status n (put k i d) ≡ (if k == n then some i.npredecessors else status n d)
unfolding status
status-put n k i d = ground (arith, get-put k n i d)

-- What the loop of `add` does: it owes the new node one for each predecessor that it counts.
pub record Linked (node : ℕ) (acc acc' : Dict ℕ NodeInfo × ℕ) : Type 0 where
  pub credits : (n : ℕ) → credit (get n acc'.0) ≡ credit (get n acc.0)
  pub debts :
      (n : ℕ)
      → outstanding n acc'.0 + (if node == n then acc.1 else 0)
        ≡ outstanding n acc.0 + (if node == n then acc'.1 else 0)
  pub keeps : (n : ℕ) (z : ℤ) → status n acc.0 ≡ some z → status n acc'.0 ≡ some z

pub status-ne :
    (k n : ℕ) (d : Dict ℕ NodeInfo) (z : ℤ)
    → get k d ≡ none
    → status n d ≡ some z
    → (k == n) ≡ false
unfolding status
status-ne k n d z e h = elim (Bool-cases (k == n)) [
  | inl same ↦
      let eq : k ≡ n = ground arith in let e' : get n d ≡ none = rw (← eq) e in ground arith
  | inr other ↦ other
]

pub status-get_nodeinfo :
    (k n : ℕ) (d : Dict ℕ NodeInfo) (z : ℤ)
    → status n d ≡ some z
    → status n (get_nodeinfo k d).1 ≡ some z
unfolding get_nodeinfo
status-get_nodeinfo k n d z h = elim (Option-cases (get k d)) [
  | inl e ↦ rw (e, get_nodeinfo) (rw (status-put, status-ne k n d z e h) h)
  | inr (i, e) ↦ rw (e, get_nodeinfo) h
]

-- The predecessor's info with the new node among its successors.
abbrev extend : ℕ → NodeInfo → NodeInfo
extend node info = record info { successors = info.successors ++ node ∷ [] }

share-extend :
    (node n : ℕ) (info : NodeInfo)
    → is_done info.npredecessors ≡ false
    → share n (some (extend node info)) ≡ share n (some info) + (if node == n then 1 else 0)
unfolding share
share-extend node n info h = rw (h, count-append n info.successors (node ∷ [])) (omega arith)

module _ (node pred : ℕ) (info : NodeInfo) (d : Dict ℕ NodeInfo) (e : get pred d ≡ some info) where
  credit-extend : (n : ℕ) → credit (get n (put pred (extend node info) d)) ≡ credit (get n d)
  credit-extend n = elim (Bool-cases (pred == n)) [
    | inl same ↦
        let eq : pred ≡ n = ground arith in rw (credit-put, same, ← eq, e) (unfold credit in refl)
    | inr other ↦ rw (credit-put, other) refl
  ]

  status-extend : (n : ℕ) → status n (put pred (extend node info) d) ≡ status n d
  unfolding status
  status-extend n = elim (Bool-cases (pred == n)) [
    | inl same ↦ let eq : pred ≡ n = ground arith in rw (status-put, same, ← eq, status, e) refl
    | inr other ↦ rw (status-put, other) refl
  ]

  outstanding-extend :
      (n : ℕ)
      → is_done info.npredecessors ≡ false
      → outstanding n (put pred (extend node info) d)
        ≡ outstanding n d + (if node == n then 1 else 0)
  outstanding-extend n waits =
      let sums : outstanding n (put pred (extend node info) d) + share n (some info)
          ≡ outstanding n d + share n (some (extend node info)) =
        rw e at (outstanding-put n pred (extend node info) d) in
      omega (arith, sums, share-extend node n info waits)

link_books :
    (node pred : ℕ) (d : Dict ℕ NodeInfo) (num : ℕ) → Linked node (d, num) (link node pred (d, num))
unfolding link
link_books node pred d num =
    let (same, e) = get_nodeinfo_lem pred d in
    let (info, d') = get_nodeinfo pred d in
    elim (Bool-cases (is_done info.npredecessors)) [
      | inl finished ↦ rw finished (record {
        credits = same.credits;
        debts = λ n. omega (arith, same.debts n);
        keeps = λ n z. status-get_nodeinfo pred n d z;
      })
      | inr waits ↦ rw waits (record {
        credits = λ n. credit-extend node pred info d' e n ∙ same.credits n;
        debts = λ n. ground (arith, outstanding-extend node pred info d' e n waits, same.debts n);
        keeps = λ n z h. status-extend node pred info d' e n ∙ status-get_nodeinfo pred n d z h;
      })
    ]

pub link_all_books :
    (node : ℕ) (preds : List ℕ) (acc : Dict ℕ NodeInfo × ℕ)
    → Linked node acc (link_all node preds acc)
unfolding link_all
link_all_books node [] acc = record { credits = λ n. refl; debts = λ n. refl; keeps = λ n z h. h }
link_all_books node (pred ∷ preds) acc =
    let one = link_books node pred acc.0 acc.1 in
    let rest = link_all_books node preds (link node pred acc) in
    record {
      credits = λ n. rest.credits n ∙ one.credits n;
      debts = λ n. omega (arith, one.debts n, rest.debts n);
      keeps = λ n z h. rest.keeps n z (one.keeps n z h);
    }

pub share-waiting :
    (n : ℕ) (i j : NodeInfo)
    → is_done i.npredecessors ≡ false
    → is_done j.npredecessors ≡ false
    → i.successors ≡ j.successors
    → share n (some i) ≡ share n (some j)
unfolding share
share-waiting n i j a b e = ground arith

-- The invariant of the sorter between calls.
abbrev pub IsBalanced : Dict ℕ NodeInfo → Type 0
IsBalanced d = (n : ℕ) → outstanding n d ≡ credit (get n d)

increase-pos : (n k : ℕ) → increase (pos n) k ≡ pos (n + k)
unfolding increase
increase-pos n zero = ground arith
increase-pos n (suc k) = refl

pub status-some :
    (k : ℕ) (d : Dict ℕ NodeInfo) (z : ℤ)
    → status k d ≡ some z
    → (i : NodeInfo) × (get k d ≡ some i) × (i.npredecessors ≡ z)
unfolding status
status-some k d z h = elim (Option-cases (get k d)) [
  | inl e ↦ absurd (ground arith)
  | inr (i, e) ↦ (i, e, ground arith)
]

-- What the last step writes.
pub raise_count_lem :
    (node num : ℕ) (d : Dict ℕ NodeInfo)
    → status node d ≡ some (pos 0)
    → (i : NodeInfo) × (get node d ≡ some i)
      × (i.npredecessors ≡ pos 0)
      × (raise_count node (d, num) ≡ put node (record i { npredecessors = pos num }) d)
unfolding raise_count
raise_count_lem node num d st =
    let (i, e, z) = status-some node d (pos 0) st in
    (i, e, z, rw (raise_count, e, z, increase-pos) (ground arith))

-- The last step pays what the loop has counted.
raise_count-IsBalanced :
    (node num : ℕ) (d : Dict ℕ NodeInfo)
    → status node d ≡ some (pos 0)
    → ((n : ℕ) → outstanding n d ≡ credit (get n d) + (if node == n then num else 0))
    → IsBalanced (raise_count node (d, num))
unfolding raise_count is_done credit
raise_count-IsBalanced node num d st h n =
    let (i, e, z) = status-some node d (pos 0) st in
    let paid : NodeInfo = record i { npredecessors = pos num } in
    let put_paid : raise_count node (d, num) ≡ put node paid d =
      rw (raise_count, e, z, increase-pos) (ground arith) in
    let debts : outstanding n (put node paid d) ≡ outstanding n d =
      ground (arith, outstanding-put n node paid d, share-waiting n i paid) in
    rw put_paid (elim (Bool-cases (node == n)) [
      | inl same ↦
          let eq : node ≡ n = ground arith in
          let e' : get n d ≡ some i = rw (← eq) e in
          rw (credit-put, same, debts) (ground (arith, h n))
      | inr other ↦ rw (credit-put, other, debts) (ground (arith, h n))
    ])

pub add_start :
    (node : ℕ) (d : Dict ℕ NodeInfo)
    → get node d ≡ none
    → status node (get_nodeinfo node d).1 ≡ some (pos 0)
unfolding get_nodeinfo
add_start node d e = rw (e, get_nodeinfo) (rw (status-put, beq_refl node) refl)

-- `add` that does not raise keeps each count of predecessors equal to the number of edges from nodes
-- that are not done.
pub add-IsBalanced :
    (node : ℕ) (preds : List ℕ) (s s' : TopologicalSorter)
    → IsBalanced s.node2info
    → add node preds s ≡ ok s'
    → IsBalanced s'.node2info
unfolding add
add-IsBalanced node preds s s' b h =
    let (same, e) = get_nodeinfo_lem node s.node2info in
    let start = (get_nodeinfo node s.node2info).1 in
    let l = link_all_books node preds (start, 0) in
    let new : get node s.node2info ≡ none = ground arith in
    let (d, num) = link_all node preds (start, 0) in
    let done : raise_count node (d, num) ≡ s'.node2info = ground arith in
    subst IsBalanced done (
      raise_count-IsBalanced node num d (l.keeps node (pos 0) (add_start node s.node2info new))
        (λ n. ground (arith, l.debts n, l.credits n, same.debts n, same.credits n, b n)))
