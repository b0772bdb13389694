-- ===== src/Ring/Selecting.antt =====
-- `select` with secondaries, and what it leaves among the overrides.
use trust_and_safety_demo.Base.{
  ℕ, zero, suc, ◌+◌, ◌≡◌, inl, inr, refl, sym, subst, ◌∙◌, arith, true, false, Option, some, List,
  [], ◌∷◌, ◌++◌, ◌==◌, nat_eq, string_eq, elem, elem-append, take, All, IsDistinct, IsDistinct-snoc,
  Bool-cases, beq_refl, Result, ok,
}
use trust_and_safety_demo.Base.Dict.{Dict, get, put, get-put}
use trust_and_safety_demo.Ring.Topology.{
  Item, item_eq, JsonItem, JsonValue, EtcdHashRingMember, ensure_strings_are_bytes,
}
use trust_and_safety_demo.Ring.Defs.{
  EtcdHashRing, Event, Selection, several, append_nodes, ensure_watching, select,
}

append_nodes-keeps :
    (ns os : List Item) (x : Item) → elem x os ≡ true → elem x (append_nodes ns os) ≡ true
unfolding append_nodes
append_nodes-keeps [] os x h = h
append_nodes-keeps (n ∷ ns) os x h = elim (Bool-cases (elem n os)) [
  | inl old ↦ rw old (append_nodes-keeps ns os x h)
  | inr new ↦ rw new (append_nodes-keeps ns (os ++ n ∷ []) x (rw elem-append (ground arith)))
]

append_nodes-cons :
    (n : Item) (ns os : List Item)
    → (os' : List Item) × (append_nodes (n ∷ ns) os ≡ append_nodes ns os') × (elem n os' ≡ true)
unfolding append_nodes
append_nodes-cons n ns os = elim (Bool-cases (elem n os)) [
  | inl old ↦ (os, rw old refl, old)
  | inr new ↦ (os ++ n ∷ [], rw new refl, rw elem-append (ground (arith, beq_refl n)))
]

append_nodes-has : (ns os : List Item) → All (λ n. elem n (append_nodes ns os) ≡ true) ns
append_nodes-has [] os = tt
append_nodes-has (n ∷ ns) os =
    let (os', e, t) = append_nodes-cons n ns os in
    subst (λ l. (elem n l ≡ true) × All (λ m. elem m l ≡ true) ns) (sym e)
      (append_nodes-keeps ns os' n t, append_nodes-has ns os')

append_nodes-IsDistinct : (ns os : List Item) → IsDistinct os → IsDistinct (append_nodes ns os)
unfolding append_nodes
append_nodes-IsDistinct [] os h = h
append_nodes-IsDistinct (n ∷ ns) os h = elim (Bool-cases (elem n os)) [
  | inl old ↦ rw old (append_nodes-IsDistinct ns os h)
  | inr new ↦ rw new (append_nodes-IsDistinct ns (os ++ n ∷ []) (IsDistinct-snoc os n h new))
]

append_nodes-idle : (ns os : List Item) → All (λ n. elem n os ≡ true) ns → append_nodes ns os ≡ os
unfolding append_nodes
append_nodes-idle [] os h = refl
append_nodes-idle (n ∷ ns) os h = rw (append_nodes, h.0) (append_nodes-idle ns os h.1)

elem-take : (n : ℕ) (xs : List Item) (x : Item) → elem x xs ≡ false → elem x (take n xs) ≡ false
elem-take zero xs x h = refl
elem-take (suc n) [] x h = refl
elem-take (suc n) (y ∷ xs) x h = ground (arith, elem-take n xs x)

IsDistinct-take : (n : ℕ) (xs : List Item) → IsDistinct xs → IsDistinct (take n xs)
IsDistinct-take zero xs h = tt
IsDistinct-take (suc n) [] h = tt
IsDistinct-take (suc n) (x ∷ xs) h = (elem-take n xs x h.0, IsDistinct-take n xs h.1)

put-put : (k : Item) (v w : List Item) (d : Dict Item (List Item)) → put k v (put k w d) ≡ put k v d
unfolding put
put-put k v w [] = rw beq_refl refl
put-put k v w ((j, u) ∷ d) = ground (arith, put-put k v w d)

module _ {R T : Type 0} (build : ℕ → List EtcdHashRingMember → R)
    (find_node : R → Item → Option Item) (find_nodes : R → Item → ℕ → List Item)
    (loads : T → Result JsonValue) (dumps : JsonValue → T) (set : T → Result T)
    (first : Result (Event T)) where
  abbrev choose : JsonItem → ℕ → EtcdHashRing R → Result (Selection × EtcdHashRing R)
  choose = select build find_node find_nodes loads dumps set first

  select_overridden :
      (key : JsonItem) (n : ℕ) (s : EtcdHashRing R) (os : List Item)
      → s.is_watching ≡ true
      → get (ensure_strings_are_bytes key) s.overrides ≡ some os
      → choose key (suc n) s ≡ (
          let os' =
            append_nodes (find_nodes s.ring (ensure_strings_are_bytes key) (suc n + 1)) os in
          ok (
            several (take (suc n + 1) os'),
            record s { overrides = put (ensure_strings_are_bytes key) os' s.overrides },
          ))
  unfolding select ensure_watching
  select_overridden key n s os w e =
      let more : (suc n == 0) ≡ false = ground arith in rw (select, w, more, e) refl

  -- The members that are selected for a key with overrides are distinct, if its overrides are.
  pub select-IsDistinct :
      (key : JsonItem) (n : ℕ) (s s' : EtcdHashRing R) (os members : List Item)
      → s.is_watching ≡ true
      → get (ensure_strings_are_bytes key) s.overrides ≡ some os
      → IsDistinct os
      → choose key (suc n) s ≡ ok (several members, s')
      → IsDistinct members
  select-IsDistinct key n s s' os members w e d h =
      let nodes = find_nodes s.ring (ensure_strings_are_bytes key) (suc n + 1) in
      let same : take (suc n + 1) (append_nodes nodes os) ≡ members =
        ground (arith, select_overridden key n s os w e) in
      rw⁻¹ same (IsDistinct-take (suc n + 1) _ (append_nodes-IsDistinct nodes os d))

  -- Selecting again for a key with overrides gives the same members, and changes nothing more: the
  -- first call has left every node that the ring found among the overrides of the key.
  pub select-select :
      (key : JsonItem) (n : ℕ) (s s' : EtcdHashRing R) (os : List Item) (r : Selection)
      → s.is_watching ≡ true
      → get (ensure_strings_are_bytes key) s.overrides ≡ some os
      → choose key (suc n) s ≡ ok (r, s')
      → (choose key (suc n) s' ≡ ok (r, s'))
        × ((os' : List Item) × (get (ensure_strings_are_bytes key) s'.overrides ≡ some os')
            × All
                (λ node. elem node os' ≡ true)
                (find_nodes s.ring (ensure_strings_are_bytes key) (suc n + 1)))
  select-select key n s s' os r w e h =
      let k = ensure_strings_are_bytes key in
      let nodes = find_nodes s.ring k (suc n + 1) in
      let os' = append_nodes nodes os in
      let e0 = select_overridden key n s os w e in
      let after : record s { overrides = put k os' s.overrides } ≡ s' = ground arith in
      let found : r ≡ several (take (suc n + 1) os') = ground arith in
      let got : get k (put k os' s.overrides) ≡ some os' = rw (get-put, beq_refl k) refl in
      let again : append_nodes nodes os' ≡ os' =
        append_nodes-idle nodes os' (append_nodes-has nodes os) in
      rw⁻¹ after (
        select_overridden key n (record s { overrides = put k os' s.overrides }) os' w got
            ∙ rw (again, put-put, found) refl,
        (os', got, append_nodes-has nodes os),
      )
