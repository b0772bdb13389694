-- ===== src/Labels/Desired.antt =====
-- `_get_desired_states_by_label_name` on what the conflicts leave: its assertions hold.
use trust_and_safety_demo.Base.{
  ℕ, ◌≡◌, String, true, false, Option, none, some, List, [], ◌∷◌, ◌++◌, arith, ltb, ◌==◌, nat_eq,
  string_eq, all, all-append, refl, Bool-cases, inl, inr, All, ok, >>=-eq-ok, ap, IsDistinct, subst,
  sym,
}
use trust_and_safety_demo.Base.Dict.{Dict, get, put, keys, All-get, All-put, IsDistinct-keys-put}
use trust_and_safety_demo.Labels.Status.{value}
use trust_and_safety_demo.Labels.Merging.{insert_or_update_dated}
use trust_and_safety_demo.Labels.State.{LabelStateInner}
use trust_and_safety_demo.Labels.Applying.{IsValid}
use trust_and_safety_demo.Labels.Mutations.{EntityLabelMutation, reason, desired_state}
use trust_and_safety_demo.Labels.Provider.{
  Collected, collect_one, collect, get_mutations_by_label_name_and_drop_conflicts, merge_mutations,
  get_desired_state, get_desired_states_by_label_name,
}

-- Some mutations, all of one status.
abbrev pub IsUniform : List EntityLabelMutation → Type 0
IsUniform [] = ⊥
IsUniform (m ∷ ms) = all (λ n. value n.status == value m.status) ms ≡ true

abbrev pub AreUniform : Dict String (List EntityLabelMutation) → Type 0
AreUniform d = All (λ p. IsUniform p.1) d

IsUniform-snoc :
    (n m : EntityLabelMutation) (ns : List EntityLabelMutation)
    → IsUniform (n ∷ ns)
    → ltb (value n.status) (value m.status) ≡ false
    → ltb (value m.status) (value n.status) ≡ false
    → IsUniform (n ∷ ns ++ m ∷ [])
IsUniform-snoc n m ns h a b =
    ground (arith, all-append (λ k. value k.status == value n.status) ns (m ∷ []))

-- A step leaves the dict as it is, or stores mutations of one status.
data Stored (k : String) (before after : Dict String (List EntityLabelMutation)) : Type 0 where
  kept : after ≡ before → Stored k before after
  stored :
      (ms : List EntityLabelMutation)
      → after ≡ put k ms before
      → IsUniform ms
      → Stored k before after

collect_named-Stored :
    (m : EntityLabelMutation) (c c' : Collected) (o : Option (List EntityLabelMutation))
    → AreUniform c.by_label_name
    → (m.label_name == "") ≡ false
    → get m.label_name c.by_label_name ≡ o
    → collect_one m c ≡ ok c'
    → Stored m.label_name c.by_label_name c'.by_label_name
unfolding collect_one
collect_named-Stored m c c' none h valid g e = stored (m ∷ []) (ground arith) refl
collect_named-Stored m c c' (some []) h valid g e =
    absurd (All-get IsUniform m.label_name c.by_label_name h g)
collect_named-Stored m c c' (some (n ∷ ns)) h valid g e =
    elim (Bool-cases (ltb (value n.status) (value m.status))) [
      | inl heavier ↦ stored (m ∷ []) (ground arith) refl
      | inr no_heavier ↦ elim (Bool-cases (ltb (value m.status) (value n.status))) [
        | inl lighter ↦ kept (ground arith)
        | inr equal ↦ stored (n ∷ ns ++ m ∷ []) (ground arith) (
            IsUniform-snoc n m ns (All-get IsUniform m.label_name c.by_label_name h g) no_heavier
              equal)
      ]
    ]

collect_one-Stored :
    (m : EntityLabelMutation) (c c' : Collected)
    → AreUniform c.by_label_name
    → collect_one m c ≡ ok c'
    → Stored m.label_name c.by_label_name c'.by_label_name
unfolding collect_one
collect_one-Stored m c c' h e = elim (Bool-cases (m.label_name == "")) [
  | inl empty ↦ kept (ground arith)
  | inr valid ↦ collect_named-Stored m c c' _ h valid refl e
]

Stored-AreUniform :
    {k : String} {before after : Dict String (List EntityLabelMutation)}
    → Stored k before after
    → AreUniform before
    → AreUniform after
Stored-AreUniform (kept e) h = subst AreUniform (sym e) h
Stored-AreUniform {k} {before} (stored ms e u) h =
    subst AreUniform (sym e) (All-put IsUniform k ms before u h)

collect-AreUniform :
    (ms : List EntityLabelMutation) (c c' : Collected)
    → AreUniform c.by_label_name
    → collect ms c ≡ ok c'
    → AreUniform c'.by_label_name
unfolding collect
collect-AreUniform [] c c' h e =
    let same : c ≡ c' = cc in subst (λ (x : Collected). AreUniform x.by_label_name) same h
collect-AreUniform (m ∷ ms) c c' h e =
    let (d, e', e'') = >>=-eq-ok (collect_one m c) (collect ms) e in
    collect-AreUniform ms d c' (Stored-AreUniform (collect_one-Stored m c d h e') h) e''

Stored-IsDistinct :
    {k : String} {before after : Dict String (List EntityLabelMutation)}
    → Stored k before after
    → IsDistinct (keys before)
    → IsDistinct (keys after)
Stored-IsDistinct (kept e) h = subst (λ x. IsDistinct (keys x)) (sym e) h
Stored-IsDistinct {k} {before} (stored ms e u) h =
    subst (λ x. IsDistinct (keys x)) (sym e) (IsDistinct-keys-put k ms before h)

collect-IsDistinct :
    (ms : List EntityLabelMutation) (c c' : Collected)
    → AreUniform c.by_label_name
    → IsDistinct (keys c.by_label_name)
    → collect ms c ≡ ok c'
    → IsDistinct (keys c'.by_label_name)
unfolding collect
collect-IsDistinct [] c c' u h e =
    let same : c ≡ c' = cc in subst (λ (x : Collected). IsDistinct (keys x.by_label_name)) same h
collect-IsDistinct (m ∷ ms) c c' u h e =
    let (d, e', e'') = >>=-eq-ok (collect_one m c) (collect ms) e in
    let step = collect_one-Stored m c d u e' in
    collect-IsDistinct ms d c' (Stored-AreUniform step u) (Stored-IsDistinct step h) e''

pub drop_conflicts-IsDistinct :
    (mutations : List EntityLabelMutation) (c : Collected)
    → get_mutations_by_label_name_and_drop_conflicts mutations ≡ ok c
    → IsDistinct (keys c.by_label_name)
unfolding get_mutations_by_label_name_and_drop_conflicts
drop_conflicts-IsDistinct mutations c e = collect-IsDistinct mutations _ c tt tt e

module _ (created : EntityLabelMutation → ℕ) where
  merge_mutations-IsValid :
      (ms : List EntityLabelMutation) (d : LabelStateInner)
      → IsValid d.reasons
      → (d' : LabelStateInner) × (merge_mutations created ms d ≡ ok d')
        × IsValid d'.reasons
        × (d'.status ≡ d.status)
  unfolding merge_mutations
  merge_mutations-IsValid [] d v = (d, refl, v, refl)
  merge_mutations-IsValid (m ∷ ms) d v =
      let (out, e, dated, some_) =
        insert_or_update_dated m.reason_name (reason (created m) m) d.reasons
          (unfold reason in refl) v.dated in
      let (d', e', v', s) =
        merge_mutations-IsValid ms (record d { reasons = out.0 })
          (record { nonempty = some_; dated = dated }) in
      (d', rw e e', v', s)

  get_desired_state-IsValid :
      (ms : List EntityLabelMutation)
      → IsUniform ms
      → (d : LabelStateInner) × (get_desired_state created ms ≡ ok d) × IsValid d.reasons
  unfolding get_desired_state desired_state
  get_desired_state-IsValid [] u = absurd u
  get_desired_state-IsValid (m ∷ ms) u =
      let (d, e, v, s) =
        merge_mutations-IsValid ms (desired_state (created m) m)
          (record { nonempty = λ n. cc; dated = (refl, tt) }) in
      (d, rw u e, v)

  get_desired_states-IsValid :
      (by_label_name : Dict String (List EntityLabelMutation))
      → AreUniform by_label_name
      → (ds : Dict String LabelStateInner) × (get_desired_states_by_label_name created by_label_name
          ≡ ok ds)
        × All (λ p. IsValid (p.1.reasons)) ds
        × (keys ds ≡ keys by_label_name)
  unfolding get_desired_states_by_label_name
  get_desired_states-IsValid [] u = ([], refl, tt, refl)
  get_desired_states-IsValid ((l, ms) ∷ rest) u =
      let (d, e, v) = get_desired_state-IsValid ms u.0 in
      let (ds, e', vs, ks) = get_desired_states-IsValid rest u.1 in
      ((l, d) ∷ ds, rw (e, e'), (v, vs), ap (λ k. l ∷ k) ks)

  -- Once the conflicts of a request are dropped, computing the desired states does not raise:
  -- neither assertion fails, nor does a reason lack its time of creation. There is one desired
  -- state for each label that has mutations left, in the same order, and each has reasons.
  pub get_desired_states_total :
      (mutations : List EntityLabelMutation) (c : Collected)
      → get_mutations_by_label_name_and_drop_conflicts mutations ≡ ok c
      → (ds : Dict String LabelStateInner) × (get_desired_states_by_label_name created
            c.by_label_name
          ≡ ok ds)
        × All (λ p. IsValid (p.1.reasons)) ds
        × (keys ds ≡ keys c.by_label_name)
  unfolding get_mutations_by_label_name_and_drop_conflicts
  get_desired_states_total mutations c e =
      get_desired_states-IsValid c.by_label_name (collect-AreUniform mutations _ c tt e)
