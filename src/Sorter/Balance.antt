-- ===== src/Sorter/Balance.antt =====
-- The books of the sorter: what a node waits for is what the unfinished nodes owe it.
use trust_and_safety_demo.Base.{
  ℕ, ◌+◌, ◌≤◌, ◌≡◌, inl, inr, Option, none, some, [], ◌∷◌, arith, if◌then◌else◌, ◌==◌, nat_eq,
  count, beq_refl, refl, Bool-cases, Option-cases,
}
use trust_and_safety_demo.Base.Dict.{Dict, get, put, get-put}
use trust_and_safety_demo.Sorter.Defs.{pos, negsuc, NodeInfo, is_done, get_nodeinfo}

-- The predecessors that a node still waits for; none once it is out or done.
unfoldable pub credit : Option NodeInfo → ℕ
credit none = 0
credit (some i) = elim i.npredecessors [ pos n ↦ n | negsuc _ ↦ 0 ]

-- How often a node that is not done lists `n` among its successors.
unfoldable pub share : ℕ → Option NodeInfo → ℕ
share n none = 0
share n (some i) = if is_done i.npredecessors then 0 else count n i.successors

unfoldable pub outstanding : ℕ → Dict ℕ NodeInfo → ℕ
outstanding n [] = 0
outstanding n ((k, i) ∷ d) = share n (some i) + outstanding n d

pub outstanding-put :
    (n k : ℕ) (i : NodeInfo) (d : Dict ℕ NodeInfo)
    → outstanding n (put k i d) + share n (get k d) ≡ outstanding n d + share n (some i)
unfolding outstanding put get
outstanding-put n k i [] = unfold share in omega arith
outstanding-put n k i ((j, w) ∷ d) = elim (Bool-cases (j == k)) [
  | inl same ↦ rw same (omega arith)
  | inr other ↦ rw other (omega (arith, outstanding-put n k i d))
]

pub share-le-outstanding : (n k : ℕ) (d : Dict ℕ NodeInfo) → share n (get k d) ≤ outstanding n d
unfolding outstanding get
share-le-outstanding n k [] = unfold share in omega arith
share-le-outstanding n k ((j, w) ∷ d) = elim (Bool-cases (j == k)) [
  | inl same ↦ rw same (omega arith)
  | inr other ↦ rw other (omega (arith, share-le-outstanding n k d))
]

-- Writing an info changes the credit of its node alone.
pub credit-put :
    (n k : ℕ) (i : NodeInfo) (d : Dict ℕ NodeInfo)
    → credit (get n (put k i d)) ≡ (if k == n then credit (some i) else credit (get n d))
credit-put n k i d = rw get-put (ground arith)

-- What a write keeps: the credits and what is outstanding, if it changes neither for its node.
pub record SameBooks (d d' : Dict ℕ NodeInfo) : Type 0 where
  pub credits : (n : ℕ) → credit (get n d') ≡ credit (get n d)
  pub debts : (n : ℕ) → outstanding n d' ≡ outstanding n d

pub SameBooks-put :
    (k : ℕ) (i : NodeInfo) (d : Dict ℕ NodeInfo)
    → credit (some i) ≡ credit (get k d)
    → ((n : ℕ) → share n (some i) ≡ share n (get k d))
    → SameBooks d (put k i d)
SameBooks-put k i d c s = record {
  credits = λ n. elim (Bool-cases (k == n)) [
    | inl same ↦ let e : k ≡ n = ground arith in rw (credit-put, same, ← e) c
    | inr other ↦ rw (credit-put, other) refl
  ];
  debts = λ n. omega (arith, outstanding-put n k i d, s n);
}

pub get_nodeinfo_lem :
    (k : ℕ) (d : Dict ℕ NodeInfo)
    → SameBooks d (get_nodeinfo k d).1 × (get k (get_nodeinfo k d).1 ≡ some (get_nodeinfo k d).0)
unfolding get_nodeinfo
get_nodeinfo_lem k d = elim (Option-cases (get k d)) [
  | inl e ↦
      rw (e, get_nodeinfo)
        (
          SameBooks-put k (record { npredecessors = pos 0; successors = [] }) d
              (rw e (unfold credit in refl)) (λ n. rw e (unfold share is_done in refl)),
          rw (get-put, beq_refl k) refl,
        )
  | inr (i, e) ↦ rw (e, get_nodeinfo) (record { credits = λ n. refl; debts = λ n. refl }, e)
]
