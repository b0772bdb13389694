-- ===== src/Labels/Conflicts.antt =====
-- `_get_mutations_by_label_name_and_drop_conflicts` keeps the survivors and drops the rest.
use Prim.Native.Nat.{max}
use text.Mathlib.TextEquality.{eq_iff}
use mathlib.Core.List.{append-nil, append_assoc}
use trust_and_safety_demo.Base.{
  ◌<◌, ◌≡◌, ◌≢◌, String, true, false, Option, none, some, List, [], ◌∷◌, ◌++◌, map, subst, beq_refl,
  sym, ◌∙◌, arith, if◌then◌else◌, ltb, ◌==◌, nat_eq, string_eq, refl, Bool-cases, inl, inr, ok,
}
use trust_and_safety_demo.Base.Dict.{Dict, get, put, get-put}
use trust_and_safety_demo.Labels.Status.{value, conflicting_mutation, invalid_label_name}
use trust_and_safety_demo.Labels.Mutations.{EntityLabelMutation}
use trust_and_safety_demo.Labels.Provider.{
  Collected, drop_as, collect_one, collect, get_mutations_by_label_name_and_drop_conflicts,
}
use trust_and_safety_demo.Labels.Survivors.{
  top, of_weight, named, survivors, top-snoc, named-snoc, of_weight-snoc, of_weight-above,
  of_weight-unnamed, top-unnamed, value_of_head, of_weight-top-ne-nil,
}

-- The dict holds what survives of the mutations seen so far.
abbrev Holds : List EntityLabelMutation → Dict String (List EntityLabelMutation) → Type 0
Holds seen by_label_name = (l : String) → get l by_label_name ≡ survivors l seen

-- A mutation of another label, or of no label, changes nothing for `l`.
survivors-other :
    (l : String) (seen : List EntityLabelMutation) (m : EntityLabelMutation)
    → (m.label_name == l) ≡ false
    → survivors l (seen ++ m ∷ []) ≡ survivors l seen
unfolding survivors
survivors-other l seen m h =
    rw (named-snoc l seen m, top-snoc l seen m, of_weight-snoc l _ seen m, h, append-nil)
      (ground arith)

module _ (l : String) (seen : List EntityLabelMutation) (m : EntityLabelMutation)
    (same : (m.label_name == l) ≡ true) (valid : (l == "") ≡ false) where
  survivors-snoc :
      survivors l (seen ++ m ∷ [])
      ≡ some (
          of_weight l (max (top l seen) (value m.status)) seen
          ++ (if value m.status == max (top l seen) (value m.status) then m ∷ [] else []))
  unfolding survivors
  survivors-snoc =
      rw (named-snoc l seen m, top-snoc l seen m, of_weight-snoc l _ seen m, same, valid)
        (ground arith)

  survivors-alone :
      of_weight l (value m.status) seen ≡ []
      → max (top l seen) (value m.status) ≡ value m.status
      → survivors l (seen ++ m ∷ []) ≡ some (m ∷ [])
  survivors-alone none_left t = rw (survivors-snoc, t, none_left) (ground arith)

  -- The first mutation of the label, and one with more weight than those before it.
  survivors-first : named l seen ≡ false → survivors l (seen ++ m ∷ []) ≡ some (m ∷ [])
  survivors-first h =
      survivors-alone (of_weight-unnamed l _ seen h) (omega (arith, top-unnamed l seen h))

  survivors-heavier : top l seen < value m.status → survivors l (seen ++ m ∷ []) ≡ some (m ∷ [])
  survivors-heavier h = survivors-alone (of_weight-above l _ seen h) (omega arith)

  survivors-lighter :
      value m.status < top l seen
      → survivors l (seen ++ m ∷ []) ≡ some (of_weight l (top l seen) seen)
  survivors-lighter h =
      let t : max (top l seen) (value m.status) ≡ top l seen = omega arith in
      rw (survivors-snoc, t) (ground (arith, append-nil (of_weight l (top l seen) seen)))

  survivors-equal :
      value m.status ≡ top l seen
      → survivors l (seen ++ m ∷ []) ≡ some (of_weight l (top l seen) seen ++ m ∷ [])
  survivors-equal h =
      let t : max (top l seen) (value m.status) ≡ top l seen = omega arith in
      rw (survivors-snoc, t) (ground arith)

-- What the dict holds under a label, in the terms of the loop.
data Group (l : String) (seen : List EntityLabelMutation)
    : Option (List EntityLabelMutation) → Type 0 where
  absent : named l seen ≡ false → Group l seen none
  present :
      (n : EntityLabelMutation) (ns : List EntityLabelMutation)
      → of_weight l (top l seen) seen ≡ n ∷ ns
      → value n.status ≡ top l seen
      → Group l seen (some (n ∷ ns))

survivors-Group :
    (l : String) (seen : List EntityLabelMutation)
    → (l == "") ≡ false
    → Group l seen (survivors l seen)
unfolding survivors
survivors-Group l seen valid = elim (Bool-cases (named l seen)) [
  | inl e ↦ rw (e, valid) (go (of_weight l (top l seen) seen) refl (of_weight-top-ne-nil l seen e))
  | inr e ↦ rw e (absent e)
]
  where
    go :
        (ms : List EntityLabelMutation)
        → of_weight l (top l seen) seen ≡ ms
        → ms ≢ []
        → Group l seen (some ms)
    go [] e h = absurd (h refl)
    go (n ∷ ns) e h = present n ns e (value_of_head l _ seen n ns e)

survivors-unnamed :
    (l : String) (seen : List EntityLabelMutation) → (l == "") ≡ true → survivors l seen ≡ none
unfolding survivors
survivors-unnamed l seen e = rw e (ground arith)

-- A step that stores what survives of the mutation's label keeps the invariant.
Holds-put :
    (seen : List EntityLabelMutation) (m : EntityLabelMutation)
    (by_label_name : Dict String (List EntityLabelMutation)) (ms : List EntityLabelMutation)
    → Holds seen by_label_name
    → survivors m.label_name (seen ++ m ∷ []) ≡ some ms
    → Holds (seen ++ m ∷ []) (put m.label_name ms by_label_name)
Holds-put seen m by_label_name ms h e l = elim (Bool-cases (m.label_name == l)) [
  | inl same ↦
      subst (λ x. get x (put m.label_name ms by_label_name) ≡ survivors x (seen ++ m ∷ []))
        ((eq_iff m.label_name l).0 same) (rw (get-put, beq_refl m.label_name) (sym e))
  | inr other ↦ rw (get-put, other, survivors-other l seen m other) (h l)
]

-- So does one that stores nothing, where nothing changes for the mutation's label.
Holds-keep :
    (seen : List EntityLabelMutation) (m : EntityLabelMutation)
    (by_label_name : Dict String (List EntityLabelMutation))
    → Holds seen by_label_name
    → survivors m.label_name (seen ++ m ∷ []) ≡ survivors m.label_name seen
    → Holds (seen ++ m ∷ []) by_label_name
Holds-keep seen m by_label_name h e l = elim (Bool-cases (m.label_name == l)) [
  | inl same ↦
      subst (λ x. get x by_label_name ≡ survivors x (seen ++ m ∷ []))
        ((eq_iff m.label_name l).0 same) (h m.label_name ∙ sym e)
  | inr other ↦ rw (survivors-other l seen m other) (h l)
]

collect_named :
    (seen : List EntityLabelMutation) (m : EntityLabelMutation) (c : Collected)
    (o : Option (List EntityLabelMutation))
    → Holds seen c.by_label_name
    → (m.label_name == "") ≡ false
    → get m.label_name c.by_label_name ≡ o
    → Group m.label_name seen o
    → (c' : Collected) × (collect_one m c ≡ ok c') × Holds (seen ++ m ∷ []) c'.by_label_name
unfolding collect_one
collect_named seen m c _ h valid g (absent u) = (
  record c { by_label_name = put m.label_name (m ∷ []) c.by_label_name },
  ground arith,
  Holds-put seen m c.by_label_name (m ∷ []) h
      (survivors-first _ seen m (beq_refl m.label_name) valid u),
)
collect_named seen m c _ h valid g (present n ns e w) =
    elim (Bool-cases (ltb (value n.status) (value m.status))) [
      | inl heavier ↦ (
        record {
          by_label_name = put m.label_name (m ∷ []) c.by_label_name;
          dropped = c.dropped ++ map (drop_as conflicting_mutation) (n ∷ ns);
        },
        ground arith,
        Holds-put seen m c.by_label_name (m ∷ []) h
            (survivors-heavier _ seen m (beq_refl m.label_name) valid (ground arith)),
      )
      | inr no_heavier ↦ elim (Bool-cases (ltb (value m.status) (value n.status))) [
        | inl lighter ↦ (
          record c { dropped = c.dropped ++ drop_as conflicting_mutation m ∷ [] },
          ground arith,
          Holds-keep seen m c.by_label_name h (
              survivors-lighter _ seen m (beq_refl m.label_name) valid (ground arith)
              ∙ ground (arith, h m.label_name)),
        )
        | inr equal ↦ (
          record c { by_label_name = put m.label_name (n ∷ ns ++ m ∷ []) c.by_label_name },
          ground arith,
          Holds-put seen m c.by_label_name (n ∷ ns ++ m ∷ []) h (
              survivors-equal _ seen m (beq_refl m.label_name) valid (ground arith) ∙ ground arith),
        )
      ]
    ]

collect_one-Holds :
    (seen : List EntityLabelMutation) (m : EntityLabelMutation) (c : Collected)
    → Holds seen c.by_label_name
    → (c' : Collected) × (collect_one m c ≡ ok c') × Holds (seen ++ m ∷ []) c'.by_label_name
unfolding collect_one
collect_one-Holds seen m c h = elim (Bool-cases (m.label_name == "")) [
  | inl empty ↦ (
    record c { dropped = c.dropped ++ drop_as invalid_label_name m ∷ [] },
    ground arith,
    Holds-keep seen m c.by_label_name h
        (survivors-unnamed m.label_name _ empty ∙ sym (survivors-unnamed m.label_name seen empty)),
  )
  | inr valid ↦
      collect_named seen m c (survivors m.label_name seen) h valid (h m.label_name)
        (survivors-Group m.label_name seen valid)
]

collect-Holds :
    (seen ms : List EntityLabelMutation) (c : Collected)
    → Holds seen c.by_label_name
    → (c' : Collected) × (collect ms c ≡ ok c') × Holds (seen ++ ms) c'.by_label_name
unfolding collect
collect-Holds seen [] c h = (c, refl, rw append-nil h)
collect-Holds seen (m ∷ ms) c h =
    let (c', e, h') = collect_one-Holds seen m c h in
    let (c'', e', h'') = collect-Holds (seen ++ m ∷ []) ms c' h' in
    (c'', rw e e', rw append_assoc at h'')

-- Dropping conflicts never raises. Afterwards the dict holds, under each label that some mutation
-- names, the mutations of that label with the greatest weight, all of them and in their order; an
-- empty name and a label that no mutation names have no entry.
pub drop_conflicts-survivors :
    (mutations : List EntityLabelMutation)
    → (c : Collected) × (get_mutations_by_label_name_and_drop_conflicts mutations ≡ ok c)
      × ((l : String) → get l c.by_label_name ≡ survivors l mutations)
unfolding get_mutations_by_label_name_and_drop_conflicts
drop_conflicts-survivors mutations =
    collect-Holds [] mutations (record { by_label_name = []; dropped = [] })
      (λ l. unfold get survivors named in refl)
