-- ===== src/Etcd/Updates.antt =====
-- What `add` and `discard` of a set do to the set that the key held.
use trust_and_safety_demo.Base.{
  ℕ, ◌≡◌, refl, subst, inl, inr, Bool, true, false, not, ◌&&◌, ◌||◌, some, List, [], ◌∷◌, map, Eq,
  ◌==◌, elem, elem-append, IsDistinct, IsDistinct-snoc, Bool-cases, ok, >>=-eq-ok, arith,
}
use trust_and_safety_demo.Etcd.Defs.{
  Condition, accepted, Client, returned, add_item, discard_item, deserialize_items, deserialize,
  SetFormat, update_set, add, discard,
}
use trust_and_safety_demo.Etcd.Atomic.{IsEtcd, Holds, cas_atomic_update-Written}

module _ {A : Type 0} ⦃e : Eq A⦄ where
  elem-add_item : (x y : A) (s : List A) → elem y (add_item x s) ≡ (x == y || elem y s)
  unfolding add_item
  elem-add_item x y s = elim (Bool-cases (elem x s)) [
    | inl old ↦ elim (Bool-cases (x == y)) [
      | inl same ↦ rw (old, same) (subst (λ z. elem z s ≡ true) ((e.beq_iff x y).0 same) old)
      | inr other ↦ rw (old, other) refl
    ]
    | inr new ↦ rw new (rw elem-append (ground arith))
  ]

  add_item-IsDistinct : (x : A) (s : List A) → IsDistinct s → IsDistinct (add_item x s)
  unfolding add_item
  add_item-IsDistinct x s h = elim (Bool-cases (elem x s)) [
    | inl old ↦ rw old h
    | inr new ↦ rw new (IsDistinct-snoc s x h new)
  ]

  elem-discard_item :
      (x y : A) (s : List A) → elem y (discard_item x s) ≡ (not (x == y) && elem y s)
  unfolding discard_item
  elem-discard_item x y [] = ground arith
  elem-discard_item x y (z ∷ s) = elim (Bool-cases (z == x)) [
    | inl same ↦
        let eq : z ≡ x = (e.beq_iff z x).0 same in
        rw same (rw (elem-discard_item x y s, eq) (ground arith))
    | inr other ↦ rw other (elim (Bool-cases (z == y)) [
      | inl here ↦
          let eq : z ≡ y = (e.beq_iff z y).0 here in
          let apart : (y == x) ≡ false = subst (λ v. (v == x) ≡ false) eq other in
          ground (arith, elem-discard_item x y s, apart, e.beq_iff x y, e.beq_iff y x)
      | inr later ↦ rw later (elem-discard_item x y s)
    ])
  ]

  discard_item-IsDistinct : (x : A) (s : List A) → IsDistinct s → IsDistinct (discard_item x s)
  unfolding discard_item
  discard_item-IsDistinct x [] h = tt
  discard_item-IsDistinct x (z ∷ s) h = elim (Bool-cases (z == x)) [
    | inl same ↦ rw same (discard_item-IsDistinct x s h.1)
    | inr other ↦
        rw other (ground (arith, elem-discard_item x z s, h.0), discard_item-IsDistinct x s h.1)
  ]

module _ {A I : Type 0} ⦃e : Eq A⦄ (decode : I → A) where
  deserialize_items-IsDistinct :
      (is : List I) (s : List A) → IsDistinct s → IsDistinct (deserialize_items decode is s)
  unfolding deserialize_items
  deserialize_items-IsDistinct [] s h = h
  deserialize_items-IsDistinct (i ∷ is) s h =
      deserialize_items-IsDistinct is (add_item (decode i) s) (add_item-IsDistinct (decode i) s h)

module _ {W T A I : Type 0} ⦃e : Eq A⦄ (client : Client W T) (laws : IsEtcd client)
    (format : SetFormat T A I) where
  -- The key of a set holds `s`.
  abbrev pub HoldsSet : W → List A → Type 0
  HoldsSet w s = Holds client laws (deserialize format.loads format.decode) [] w s

  HoldsSet-IsDistinct : (w : W) (s : List A) → HoldsSet w s → IsDistinct s
  unfolding Holds deserialize
  HoldsSet-IsDistinct w s (inl (missing, none_there)) = rw none_there tt
  HoldsSet-IsDistinct w s (inr (n, there, read)) =
      let (items, loaded, out) = >>=-eq-ok (format.loads n.value) _ read in
      let same : deserialize_items format.decode items [] ≡ s = ground arith in
      subst IsDistinct same (deserialize_items-IsDistinct format.decode items [] tt)

  -- An `add` that returns has replaced the set that the key held when it wrote by that set with the
  -- item, in a single write, and it returns whether the item was new.
  pub add_lem :
      (item : A) (fuel : ℕ) (w : W) (r : Bool) (s' : List A) (w' : W)
      → add client format item fuel w ≡ some (returned r s', w')
      → (at : W) × (old : List A) × HoldsSet at old
        × (r ≡ not (elem item old))
        × ((y : A) → elem y s' ≡ (item == y || elem y old))
        × IsDistinct s'
        × ((c : Condition) × (client.set_node (format.dumps (map format.encode s')) c at
              ≡ (accepted tt, w')))
  unfolding add update_set
  add_lem item fuel w r s' w' h =
      let x =
        cas_atomic_update-Written client laws (deserialize format.loads format.decode) []
          (λ s. format.dumps (map format.encode s)) (λ s. not (elem item s))
          (λ s. ok (add_item item s)) fuel w r s' w' h in
      let same : add_item item x.old ≡ s' = ground (arith, x.updated) in
      (
        x.at,
        x.old,
        x.held,
        x.result,
        λ y. subst (λ s. elem y s ≡ (item == y || elem y x.old)) same (elem-add_item item y x.old),
        subst IsDistinct same
            (add_item-IsDistinct item x.old (HoldsSet-IsDistinct x.at x.old x.held)),
        (x.condition, x.call),
      )

  -- A `discard` that returns has replaced the set that the key held when it wrote by that set without
  -- the item, in a single write, and it returns whether the item was there.
  pub discard_lem :
      (item : A) (fuel : ℕ) (w : W) (r : Bool) (s' : List A) (w' : W)
      → discard client format item fuel w ≡ some (returned r s', w')
      → (at : W) × (old : List A) × HoldsSet at old
        × (r ≡ elem item old)
        × ((y : A) → elem y s' ≡ (not (item == y) && elem y old))
        × IsDistinct s'
        × ((c : Condition) × (client.set_node (format.dumps (map format.encode s')) c at
              ≡ (accepted tt, w')))
  unfolding discard update_set
  discard_lem item fuel w r s' w' h =
      let x =
        cas_atomic_update-Written client laws (deserialize format.loads format.decode) []
          (λ s. format.dumps (map format.encode s)) (λ s. elem item s)
          (λ s. ok (discard_item item s)) fuel w r s' w' h in
      let same : discard_item item x.old ≡ s' = ground (arith, x.updated) in
      (
        x.at,
        x.old,
        x.held,
        x.result,
        λ y.
            subst (λ s. elem y s ≡ (not (item == y) && elem y x.old)) same
              (elem-discard_item item y x.old),
        subst IsDistinct same
            (discard_item-IsDistinct item x.old (HoldsSet-IsDistinct x.at x.old x.held)),
        (x.condition, x.call),
      )
