-- ===== src/Sorter/Covering.antt =====
-- An edge is covered while its predecessor is done, or still lists the node among its successors.
use trust_and_safety_demo.Base.{
  ℕ, ◌≤◌, ◌≡◌, inl, inr, Bool, false, Option, none, some, List, [], ◌∷◌, ◌++◌, arith, if◌then◌else◌,
  ◌==◌, nat_eq, count, count-append, refl, Bool-cases, Option-cases, beq_refl, ◌∙◌, All, IsDistinct,
}
use trust_and_safety_demo.Base.Dict.{Dict, get, put, get-put, keys, IsDistinct-keys-put}
use trust_and_safety_demo.Sorter.Balance.{get_nodeinfo_lem}
use trust_and_safety_demo.Sorter.Defs.{pos, NodeInfo, is_done, get_nodeinfo, link, link_all}

unfoldable pub is_finished : Option NodeInfo → Bool
is_finished none = false
is_finished (some i) = is_done i.npredecessors

unfoldable pub cover : ℕ → Option NodeInfo → ℕ
cover n none = 0
cover n (some i) = if is_done i.npredecessors then 1 else count n i.successors

-- A change of the dict that uncovers no edge, finishes no node and keeps the keys distinct.
pub record Keeps (d d' : Dict ℕ NodeInfo) : Type 0 where
  pub covers : (p n : ℕ) → 1 ≤ cover n (get p d) → 1 ≤ cover n (get p d')
  pub finished : (p : ℕ) → is_finished (get p d') ≡ is_finished (get p d)
  pub distinct : IsDistinct (keys d) → IsDistinct (keys d')

pub Keeps-refl : (d : Dict ℕ NodeInfo) → Keeps d d
Keeps-refl d = record { covers = λ p n h. h; finished = λ p. refl; distinct = λ h. h }

pub Keeps-trans : {a b c : Dict ℕ NodeInfo} → Keeps a b → Keeps b c → Keeps a c
Keeps-trans x y = record {
  covers = λ p n h. y.covers p n (x.covers p n h);
  finished = λ p. y.finished p ∙ x.finished p;
  distinct = λ h. y.distinct (x.distinct h);
}

-- A write keeps them if it does so for its node.
pub Keeps-put :
    (k : ℕ) (i : NodeInfo) (d : Dict ℕ NodeInfo)
    → ((n : ℕ) → 1 ≤ cover n (get k d) → 1 ≤ cover n (some i))
    → is_finished (some i) ≡ is_finished (get k d)
    → Keeps d (put k i d)
Keeps-put k i d c f = record {
  covers = λ p n h. elim (Bool-cases (k == p)) [
    | inl same ↦
        let eq : k ≡ p = ground arith in
        let h' : 1 ≤ cover n (get k d) = rw eq h in rw (get-put, same) (c n h')
    | inr other ↦ rw (get-put, other) h
  ];
  finished = λ p. elim (Bool-cases (k == p)) [
    | inl same ↦ let eq : k ≡ p = ground arith in rw (get-put, same, ← eq) f
    | inr other ↦ rw (get-put, other) refl
  ];
  distinct = IsDistinct-keys-put k i d;
}

-- In particular a write that changes the count of a node and does not make it done.
pub Keeps-count :
    (k : ℕ) (i j : NodeInfo) (d : Dict ℕ NodeInfo)
    → get k d ≡ some i
    → is_done i.npredecessors ≡ false
    → is_done j.npredecessors ≡ false
    → i.successors ≡ j.successors
    → Keeps d (put k j d)
unfolding cover is_finished
Keeps-count k i j d e a b s =
    Keeps-put k j d (λ n h. let h' : 1 ≤ cover n (some i) = rw e at h in ground arith)
      (rw (e, is_finished, is_finished, a, b) refl)

pub get_nodeinfo-Keeps : (k : ℕ) (d : Dict ℕ NodeInfo) → Keeps d (get_nodeinfo k d).1
unfolding get_nodeinfo
get_nodeinfo-Keeps k d = elim (Option-cases (get k d)) [
  | inl e ↦
      rw (e, get_nodeinfo)
        (Keeps-put k (record { npredecessors = pos 0; successors = [] }) d
          (λ n h. let h' : 1 ≤ cover n none = rw e at h in absurd (unfold cover in omega arith))
          (rw e (unfold is_finished is_done in refl)))
  | inr (i, e) ↦ rw (e, get_nodeinfo) (Keeps-refl d)
]

-- The loop of `add` keeps the edges that there are, and covers the new ones.
link-Keeps :
    (node pred : ℕ) (acc : Dict ℕ NodeInfo × ℕ)
    → Keeps acc.0 (link node pred acc).0 × (1 ≤ cover node (get pred (link node pred acc).0))
unfolding link
link-Keeps node pred (d, num) =
    let first = get_nodeinfo-Keeps pred d in
    let (same, e) = get_nodeinfo_lem pred d in
    let (info, d') = get_nodeinfo pred d in
    elim (Bool-cases (is_done info.npredecessors)) [
      | inl finished ↦ rw finished (first, rw e (unfold cover in rw finished (omega arith)))
      | inr waits ↦
          let j : NodeInfo = record info { successors = info.successors ++ node ∷ [] } in
          rw waits (
            Keeps-trans first (
                Keeps-put pred j d'
                  (λ n h.
                    let h' : 1 ≤ cover n (some info) = rw e at h in
                    let c = count-append n info.successors (node ∷ []) in
                    unfold cover in ground (arith, c, h'))
                  (rw e (unfold is_finished in refl))),
            rw (get-put, beq_refl pred)
                (unfold cover in
                  rw (waits, count-append node info.successors (node ∷ []), beq_refl node)
                    (omega arith)),
          )
    ]

pub link_all-Keeps :
    (node : ℕ) (preds : List ℕ) (acc : Dict ℕ NodeInfo × ℕ)
    → Keeps acc.0 (link_all node preds acc).0
      × All (λ p. 1 ≤ cover node (get p (link_all node preds acc).0)) preds
unfolding link_all
link_all-Keeps node [] acc = (Keeps-refl acc.0, tt)
link_all-Keeps node (p ∷ preds) acc =
    let (one, now) = link-Keeps node p acc in
    let (rest, later) = link_all-Keeps node preds (link node p acc) in
    (Keeps-trans one rest, (rest.covers p node now, later))
