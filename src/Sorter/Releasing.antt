-- ===== src/Sorter/Releasing.antt =====
-- `get_ready` and `done` keep the books of the sorter, and so they never raise where the nodes are
-- the right ones.
use trust_and_safety_demo.Base.{
  ℕ, zero, suc, ◌+◌, ◌≤◌, ◌≡◌, inl, inr, none, some, List, [], ◌∷◌, ◌++◌, arith, if◌then◌else◌,
  ◌==◌, nat_eq, count, refl, Bool-cases, Option-cases, beq_refl, ok, All, All-append, elem, true,
  subst,
}
use trust_and_safety_demo.Base.Dict.{Dict, get, put}
use trust_and_safety_demo.Sorter.Defs.{
  ℤ, pos, negsuc, NodeInfo, is_done, is_zero, decrement, release,
}
use trust_and_safety_demo.Sorter.Balance.{credit, outstanding, outstanding-put, credit-put}
use trust_and_safety_demo.Sorter.Adding.{status, status-put, share-waiting}

-- The nodes that are ready wait for nothing.
abbrev pub AreReady : Dict ℕ NodeInfo → List ℕ → Type 0
AreReady d ready = All (λ n. status n d ≡ some (pos 0)) ready

pub ready_status :
    (d : Dict ℕ NodeInfo) (ready : List ℕ)
    → AreReady d ready
    → (n : ℕ) → elem n ready ≡ true
    → status n d ≡ some (pos 0)
ready_status d [] r n h = cc
ready_status d (x ∷ ready) r n h = elim (Bool-cases (x == n)) [
  | inl same ↦ let eq : x ≡ n = ground arith in subst (λ m. status m d ≡ some (pos 0)) eq r.0
  | inr other ↦ ready_status d ready r.1 n (rw other at h)
]

-- The loop invariant of `done`: the entries of `rest` are settled in the books, and not yet paid.
abbrev pub Owing : List ℕ → Dict ℕ NodeInfo → Type 0
Owing rest d = (m : ℕ) → outstanding m d + count m rest ≡ credit (get m d)

credit-positive :
    (z : ℤ) (l : List ℕ)
    → 1 ≤ credit (some (record { npredecessors = z; successors = l }))
    → (n : ℕ) × (z ≡ pos (suc n))
unfolding credit
credit-positive (pos zero) l h = absurd (omega arith)
credit-positive (pos (suc n)) l h = (n, refl)
credit-positive (negsuc n) l h = absurd (omega arith)

credit-pos :
    (k : ℕ) (d : Dict ℕ NodeInfo)
    → 1 ≤ credit (get k d)
    → (i : NodeInfo) × (n : ℕ) × (get k d ≡ some i) × (i.npredecessors ≡ pos (suc n))
credit-pos k d h = elim (Option-cases (get k d)) [
  | inl e ↦ let h' : 1 ≤ credit none = rw e at h in absurd (unfold credit in omega arith)
  | inr (i, e) ↦
      let (n, z) = credit-positive i.npredecessors i.successors (rw e at h) in (i, n, e, z)
]

-- Paying a node what one predecessor owes it.
pub record Paid (successor : ℕ) (rest : List ℕ) (acc acc' : Dict ℕ NodeInfo × List ℕ) : Type 0 where
  pub owing : Owing rest acc'.0
  pub ready : AreReady acc.0 acc.1 → AreReady acc'.0 acc'.1
  pub info : NodeInfo
  pub left : ℕ
  pub found : get successor acc.0 ≡ some info
  pub waited : info.npredecessors ≡ pos (suc left)
  pub written : acc'.0 ≡ put successor (record info { npredecessors = pos left }) acc.0
  pub queued : acc'.1 ≡ (if is_zero (pos left) then acc.1 ++ successor ∷ [] else acc.1)

module _ (successor : ℕ) (rest : List ℕ) (d : Dict ℕ NodeInfo) (h : Owing (successor ∷ rest) d)
    (i : NodeInfo) (n : ℕ) (e : get successor d ≡ some i) (z : i.npredecessors ≡ pos (suc n)) where
  abbrev paid : NodeInfo
  paid = record i { npredecessors = pos n }

  paid-outstanding : (m : ℕ) → outstanding m (put successor paid d) ≡ outstanding m d
  unfolding is_done
  paid-outstanding m = ground (arith, outstanding-put m successor paid d, share-waiting m i paid)

  paid-Owing : Owing rest (put successor paid d)
  unfolding credit
  paid-Owing m = elim (Bool-cases (successor == m)) [
    | inl same ↦
        let eq : successor ≡ m = ground arith in
        let e' : get m d ≡ some i = rw (← eq) e in
        rw (credit-put, same, paid-outstanding) (ground (arith, h m))
    | inr other ↦ rw (credit-put, other, paid-outstanding) (ground (arith, h m))
  ]

  still_ready : (ready : List ℕ) → AreReady d ready → AreReady (put successor paid d) ready
  still_ready [] r = tt
  still_ready (m ∷ ready) r = (
    elim (Bool-cases (successor == m)) [
      | inl same ↦
          let eq : successor ≡ m = ground arith in absurd (unfold status in ground (arith, r.0))
      | inr other ↦ rw (status-put, other) r.0
    ],
    still_ready ready r.1,
  )

  now_ready :
      (ready : List ℕ)
      → AreReady d ready
      → AreReady (put successor paid d) (if is_zero (pos n) then ready ++ successor ∷ [] else ready)
  unfolding is_zero
  now_ready ready r = elim (Bool-cases (is_zero (pos n))) [
    | inl zero_left ↦ rw zero_left (
        All-append (λ m. status m (put successor paid d) ≡ some (pos 0)) ready (successor ∷ [])
          (still_ready ready r) (rw (status-put, beq_refl successor) (ground arith), tt))
    | inr more ↦ rw more (still_ready ready r)
  ]

pub release_total :
    (successor : ℕ) (rest : List ℕ) (d : Dict ℕ NodeInfo) (ready : List ℕ)
    → Owing (successor ∷ rest) d
    → (acc' : Dict ℕ NodeInfo × List ℕ) × (release successor (d, ready) ≡ ok acc')
      × Paid successor rest (d, ready) acc'
unfolding release
release_total successor rest d ready h =
    let (i, n, e, z) = credit-pos successor d (ground (arith, h successor)) in
    let j : NodeInfo = record i { npredecessors = pos n } in
    (
      (put successor j d, if is_zero (pos n) then ready ++ successor ∷ [] else ready),
      rw (release, e, z) (unfold decrement in refl),
      record {
        owing = paid-Owing successor rest d h i n e z;
        ready = now_ready successor rest d h i n e z ready;
        info = i;
        left = n;
        found = e;
        waited = z;
        written = refl;
        queued = refl;
      },
    )
