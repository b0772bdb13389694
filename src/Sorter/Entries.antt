-- ===== src/Sorter/Entries.antt =====
-- What holds of every node of a sorter: which nodes are out, and that an edge leads to a younger node.
use trust_and_safety_demo.Base.{
  ℕ, ◌≡◌, inl, inr, none, some, List, [], ◌∷◌, ◌++◌, arith, ◌==◌, nat_eq, sym, subst, Bool-cases,
  Option-cases, ok, All, ◌∙◌,
}
use trust_and_safety_demo.Base.Dict.{Dict, get, put, get-put}
use trust_and_safety_demo.Sorter.Defs.{
  pos, NodeInfo, TopologicalSorter, is_done, get_nodeinfo, link, link_all, raise_count, add,
}
use trust_and_safety_demo.Sorter.Balance.{get_nodeinfo_lem}
use trust_and_safety_demo.Sorter.Adding.{add_start, link_all_books, raise_count_lem}

-- A predicate on the nodes of a sorter and their infos.
unfoldable pub AllAt : (ℕ → NodeInfo → Type 0) → Dict ℕ NodeInfo → Type 0
AllAt P d = (p : ℕ) (i : NodeInfo) → get p d ≡ some i → P p i

pub AllAt-put :
    (P : ℕ → NodeInfo → Type 0) (k : ℕ) (i : NodeInfo) (d : Dict ℕ NodeInfo)
    → AllAt P d
    → P k i
    → AllAt P (put k i d)
unfolding AllAt
AllAt-put P k i d a h p j e = elim (Bool-cases (k == p)) [
  | inl same ↦
      let eq : k ≡ p = ground arith in
      let e' : some i ≡ some j = rw (get-put, same) at e in
      let eq' : i ≡ j = ground arith in subst (λ q. P q j) eq (subst (P k) eq' h)
  | inr other ↦ a p j (rw (get-put, other) at e)
]

-- What `add` may do to a node that a predicate holds of.
pub record Allows (P : ℕ → NodeInfo → Type 0) (node : ℕ) (preds : List ℕ) : Type 0 where
  pub fresh : P node (record { npredecessors = pos 0; successors = [] })
  pub found : All (λ p. P p (record { npredecessors = pos 0; successors = [] })) preds
  pub linked :
      All
        (λ p. (i : NodeInfo) → P p i → P p (record i { successors = i.successors ++ node ∷ [] }))
        preds
  pub counted : (i : NodeInfo) (num : ℕ) → P node i → P node (record i { npredecessors = pos num })

module _ (P : ℕ → NodeInfo → Type 0) where
  get_nodeinfo-AllAt :
      (k : ℕ) (d : Dict ℕ NodeInfo)
      → AllAt P d
      → P k (record { npredecessors = pos 0; successors = [] })
      → AllAt P (get_nodeinfo k d).1
  unfolding get_nodeinfo
  get_nodeinfo-AllAt k d a h = elim (Option-cases (get k d)) [
    | inl e ↦ rw (e, get_nodeinfo) (AllAt-put P k _ d a h)
    | inr (i, e) ↦ rw (e, get_nodeinfo) a
  ]

  link-AllAt :
      (node pred : ℕ) (d : Dict ℕ NodeInfo) (num : ℕ)
      → AllAt P d
      → P pred (record { npredecessors = pos 0; successors = [] })
      → ((i : NodeInfo) → P pred i → P pred (record i { successors = i.successors ++ node ∷ [] }))
      → AllAt P (link node pred (d, num)).0
  unfolding link AllAt
  link-AllAt node pred d num a h l =
      let (same, e) = get_nodeinfo_lem pred d in
      let a' = get_nodeinfo-AllAt pred d a h in
      let (info, d') = get_nodeinfo pred d in
      elim (Bool-cases (is_done info.npredecessors)) [
        | inl finished ↦ rw finished a'
        | inr waits ↦ rw waits (AllAt-put P pred _ d' a' (l info (a' pred info e)))
      ]

  link_all-AllAt :
      (node : ℕ) (preds : List ℕ) (acc : Dict ℕ NodeInfo × ℕ)
      → AllAt P acc.0
      → All (λ p. P p (record { npredecessors = pos 0; successors = [] })) preds
      → All
          (λ p. (i : NodeInfo) → P p i → P p (record i { successors = i.successors ++ node ∷ [] }))
          preds
      → AllAt P (link_all node preds acc).0
  unfolding link_all
  link_all-AllAt node [] acc a h l = a
  link_all-AllAt node (pred ∷ preds) acc a h l =
      link_all-AllAt node preds (link node pred acc) (link-AllAt node pred acc.0 acc.1 a h.0 l.0)
        h.1 l.1

  pub add-AllAt :
      (node : ℕ) (preds : List ℕ) (s s' : TopologicalSorter)
      → AllAt P s.node2info
      → Allows P node preds
      → add node preds s ≡ ok s'
      → AllAt P s'.node2info
  unfolding add AllAt
  add-AllAt node preds s s' a w h =
      let new : get node s.node2info ≡ none = ground arith in
      let start : Dict ℕ NodeInfo = (get_nodeinfo node s.node2info).1 in
      let l = link_all_books node preds (start, 0) in
      let num = (link_all node preds (start, 0)).1 in
      let d1 = (link_all node preds (start, 0)).0 in
      let (i, e, z, written) =
        raise_count_lem node num d1 (l.keeps node (pos 0) (add_start node s.node2info new)) in
      let a1 =
        link_all-AllAt node preds (start, 0) (get_nodeinfo-AllAt node s.node2info a w.fresh) w.found
          w.linked in
      let done : raise_count node (d1, num) ≡ s'.node2info = ground arith in
      subst (AllAt P) (sym written ∙ done)
        (AllAt-put P node _ d1 a1 (w.counted i num (a1 node i e)))
