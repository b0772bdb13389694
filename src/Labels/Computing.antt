-- ===== src/Labels/Computing.antt =====
-- `_compute_new_labels_from_mutations`, label by label.
use trust_and_safety_demo.Base.{
  ℕ, ◌≡◌, String, true, Option, none, some, List, [], ◌∷◌, arith, ◌==◌, nat_eq, string_eq, refl,
  Bool-cases, Option-cases, inl, inr, All, Result, Result-cases, ok, ◌>>=◌, >>=-eq-ok, ap, sym, ◌∙◌,
  subst, IsDistinct,
}
use text.Mathlib.TextEquality.{eq_iff}
use trust_and_safety_demo.Base.Dict.{
  Dict, get, put, keys, All-get, All-put, get-put, get-none, contains, All-contains,
}
use trust_and_safety_demo.Labels.Status.{LabelStatus, MutationDropReason}
use trust_and_safety_demo.Labels.State.{
  LabelState, LabelStateInner, from_inner, try_apply_desired_state,
}
use trust_and_safety_demo.Labels.Applying.{IsValid, try_apply_desired_state_total}
use trust_and_safety_demo.Labels.Mutations.{
  EntityLabels, EntityLabelMutation, EntityLabelMutationsResult,
}
use trust_and_safety_demo.Labels.Conflicts.{drop_conflicts-survivors}
use trust_and_safety_demo.Labels.Desired.{get_desired_states_total, drop_conflicts-IsDistinct}
use trust_and_safety_demo.Labels.Provider.{
  Collected, Progress, start, finish, record_outcome, append_result, apply_one, apply_all,
  get_mutations_by_label_name_and_drop_conflicts, get_desired_states_by_label_name,
  compute_new_labels_from_mutations,
}

-- What one label's state becomes, from its own desired state and its own old state.
abbrev pub next_state : ℕ → Option LabelStateInner → Option LabelState → Result (Option LabelState)
next_state now none old = ok old
next_state now (some d) none = ok (some (from_inner d))
next_state now (some d) (some s) = do (t, _) ← try_apply_desired_state now d s; ok (some t)

append_result-labels :
    (l : String) (s : LabelStatus) (p : Progress) → (append_result l s p).labels ≡ p.labels
unfolding append_result
append_result-labels l s p = ground arith

-- Every label of the entity has reasons, each with its time of creation.
abbrev pub AreValid : Dict String LabelState → Type 0
AreValid labels = All (λ p. IsValid p.1.reasons) labels

module _ (now : String → ℕ) (by_label_name : Dict String (List EntityLabelMutation)) where
  -- The three lists and the dropped mutations aside, `record_outcome` stores the state.
  record_outcome-labels :
      (l : String) (current state : LabelState) (d : Option MutationDropReason) (p : Progress)
      {p' : Progress}
      → record_outcome now by_label_name l current (state, d) p ≡ ok p'
      → p'.labels ≡ put l state p.labels
  unfolding record_outcome
  record_outcome-labels l current state d p h = ground arith

  apply_one-labels :
      (l : String) (d : LabelStateInner) (p : Progress) (p' : Progress)
      → apply_one now by_label_name l d p ≡ ok p'
      → (t : LabelState) × (next_state (now l) (some d) (get l p.labels) ≡ ok (some t))
        × (p'.labels ≡ put l t p.labels)
  unfolding apply_one
  apply_one-labels l d p p' h = elim (Option-cases (get l p.labels)) [
    | inl e ↦ (
      from_inner d,
      rw e refl,
      ground (
        arith,
        append_result-labels l (from_inner d).status
            (record p { labels = put l (from_inner d) p.labels }),
      ),
    )
    | inr (s, e) ↦
        let h' : (try_apply_desired_state (now l) d s >>= λ o.
        record_outcome now by_label_name l s o p)
            ≡ ok p' =
          ground arith in
        let ((t, r), e', h'') = >>=-eq-ok (try_apply_desired_state (now l) d s) _ h' in
        (t, rw (e, e') refl, record_outcome-labels l s t r p h'')
  ]

  apply_all-labels :
      (ds : Dict String LabelStateInner) (p p' : Progress) (l : String)
      → IsDistinct (keys ds)
      → apply_all now by_label_name ds p ≡ ok p'
      → next_state (now l) (get l ds) (get l p.labels) ≡ ok (get l p'.labels)
  unfolding apply_all get
  apply_all-labels [] p p' l hd h = ground arith
  apply_all-labels ((k, d) ∷ ds) p p' l hd h =
      let (q, e, h') =
        >>=-eq-ok (apply_one now by_label_name k d p) (apply_all now by_label_name ds) h in
      let (t, n, g) = apply_one-labels k d p q e in
      let ih = apply_all-labels ds q p' l hd.1 h' in
      elim (Bool-cases (k == l)) [
        | inl same ↦
            let stored : get l q.labels ≡ some t = rw (g, get-put, same) refl in
            let gone : get l ds ≡ none =
              subst (λ x. get x ds ≡ none) ((eq_iff k l).0 same) (get-none k ds hd.0) in
            let first : next_state (now l) (some d) (get l p.labels) ≡ ok (some t) =
              subst (λ x. next_state (now x) (some d) (get x p.labels) ≡ ok (some t))
                ((eq_iff k l).0 same) n in
            let last : ok (get l q.labels) ≡ ok (get l p'.labels) = rw gone at ih in
            rw same (first ∙ ap ok (sym stored) ∙ last)
        | inr other ↦
            let kept : get l q.labels ≡ get l p.labels = rw (g, get-put, other) refl in
            rw other (rw kept at ih)
      ]

  record_outcome_total :
      (l : String) (current state : LabelState) (d : Option MutationDropReason) (p : Progress)
      → contains l by_label_name ≡ true
      → (p' : Progress) × (record_outcome now by_label_name l current (state, d) p ≡ ok p')
  unfolding record_outcome
  record_outcome_total l current state d p h =
      elim (Result-cases (record_outcome now by_label_name l current (state, d) p)) [
        | inl r ↦ r
        | inr (x, e) ↦ absurd (ground arith)
      ]

  next_state-IsValid :
      (t : ℕ) (d : LabelStateInner) (labels : Dict String LabelState) (l : String) (s : LabelState)
      → IsValid d.reasons
      → AreValid labels
      → next_state t (some d) (get l labels) ≡ ok (some s)
      → IsValid s.reasons
  next_state-IsValid t d labels l s hd h n = elim (Option-cases (get l labels)) [
    | inl e ↦
        let same : from_inner d ≡ s = ground arith in
        subst (λ (x : LabelState). IsValid x.reasons) same (unfold from_inner in hd)
    | inr (old, e) ↦
        let (out, e', a) =
          try_apply_desired_state_total t d old hd
            (All-get (λ (x : LabelState). IsValid x.reasons) l labels h e) in
        let same : out.0 ≡ s = ground arith in
        subst (λ (x : LabelState). IsValid x.reasons) same a.valid
  ]

  apply_one_ok :
      (l : String) (d : LabelStateInner) (p : Progress)
      → IsValid d.reasons
      → AreValid p.labels
      → contains l by_label_name ≡ true
      → (q : Progress) × (apply_one now by_label_name l d p ≡ ok q)
  unfolding apply_one
  apply_one_ok l d p hd h c = elim (Option-cases (get l p.labels)) [
    | inl e ↦ (
      append_result l (from_inner d).status (record p { labels = put l (from_inner d) p.labels }),
      ground arith,
    )
    | inr (s, e) ↦
        let (out, e', a) =
          try_apply_desired_state_total (now l) d s hd
            (All-get (λ (x : LabelState). IsValid x.reasons) l p.labels h e) in
        let (q, r) = record_outcome_total l s out.0 out.1 p c in (q, ground arith)
  ]

  apply_one_valid :
      (l : String) (d : LabelStateInner) (p : Progress)
      → IsValid d.reasons
      → AreValid p.labels
      → contains l by_label_name ≡ true
      → (q : Progress) × (apply_one now by_label_name l d p ≡ ok q) × AreValid q.labels
  apply_one_valid l d p hd h c =
      let (q, e) = apply_one_ok l d p hd h c in
      let (t, n, g) = apply_one-labels l d p q e in
      (
        q,
        e,
        subst AreValid (sym g) (
            All-put (λ (x : LabelState). IsValid x.reasons) l t p.labels
              (next_state-IsValid (now l) d p.labels l t hd h n) h),
      )

  apply_all_valid :
      (ds : Dict String LabelStateInner) (p : Progress)
      → All (λ x. IsValid x.1.reasons) ds
      → AreValid p.labels
      → All (λ k. contains k by_label_name ≡ true) (keys ds)
      → (q : Progress) × (apply_all now by_label_name ds p ≡ ok q) × AreValid q.labels
  unfolding apply_all
  apply_all_valid [] p hd h c = (p, refl, h)
  apply_all_valid ((l, d) ∷ ds) p hd h c =
      let (q, e, v) = apply_one_valid l d p hd.0 h c.0 in
      let (r, e', v') = apply_all_valid ds q hd.1 v c.1 in (r, rw e e', v')

module _ (created : EntityLabelMutation → ℕ) (now : String → ℕ) where
  -- If every label of the entity has reasons, each with its time of creation, then computing the
  -- new labels does not raise, whatever the mutations are, and the new labels are such again.
  pub compute_new_labels_total :
      (labels : EntityLabels) (mutations : List EntityLabelMutation)
      → AreValid labels.labels
      → (r : EntityLabelMutationsResult) × (compute_new_labels_from_mutations created now labels
            mutations
          ≡ ok r)
        × AreValid r.new_entity_labels.labels
  unfolding compute_new_labels_from_mutations
  compute_new_labels_total labels mutations h =
      let (c, e, s) = drop_conflicts-survivors mutations in
      let (ds, e', v, k) = get_desired_states_total created mutations c e in
      let (q, e'', v') = apply_all_valid now c.by_label_name ds (start labels c) v h (
        subst (All (λ x. contains x c.by_label_name ≡ true)) (sym k)
          (All-contains c.by_label_name)) in
      (finish labels q, rw (e, e', e'') refl, v')

  -- The new labels, label by label: the new state of a label is a function of its own old state
  -- and of its own desired state, and a label for which none is desired keeps its state. The
  -- result also holds the old labels as they were.
  pub compute_new_labels-next_state :
      (labels : EntityLabels) (mutations : List EntityLabelMutation)
      (r : EntityLabelMutationsResult) (c : Collected) (ds : Dict String LabelStateInner)
      (l : String)
      → get_mutations_by_label_name_and_drop_conflicts mutations ≡ ok c
      → get_desired_states_by_label_name created c.by_label_name ≡ ok ds
      → compute_new_labels_from_mutations created now labels mutations ≡ ok r
      → (next_state (now l) (get l ds) (get l labels.labels)
          ≡ ok (get l r.new_entity_labels.labels))
        × (r.old_entity_labels ≡ labels)
  unfolding compute_new_labels_from_mutations
  compute_new_labels-next_state labels mutations r c ds l e e' h =
      let (ds', e'', v, k) = get_desired_states_total created mutations c e in
      let same : ds' ≡ ds = cc in
      let distinct : IsDistinct (keys ds) =
        subst (λ x. IsDistinct (keys x)) same
          (subst IsDistinct (sym k) (drop_conflicts-IsDistinct mutations c e)) in
      let h' : (apply_all now c.by_label_name ds (start labels c) >>= λ p. ok (finish labels p))
          ≡ ok r =
        rw (e, e') at h in
      let (q, f, g) = >>=-eq-ok (apply_all now c.by_label_name ds (start labels c)) _ h' in
      let last : finish labels q ≡ r = cc in
      subst
        (λ (x : EntityLabelMutationsResult).
          (next_state (now l) (get l ds) (get l labels.labels)
            ≡ ok (get l x.new_entity_labels.labels))
          × (x.old_entity_labels ≡ labels))
        last (apply_all-labels now c.by_label_name ds (start labels c) q l distinct f, refl)
