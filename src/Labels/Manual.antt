-- ===== src/Labels/Manual.antt =====
-- What a human has set is not undone by rules: the promise of `LabelStatus`, for whole requests.
use trust_and_safety_demo.Base.{
  ℕ, ◌≡◌, String, Bool, true, false, not, ◌||◌, none, some, List, [], ◌∷◌, arith, ◌==◌, nat_eq,
  string_eq, refl, Bool-cases, Option-cases, inl, inr, all, ok, err, assertion_error, if◌then◌else◌,
  >>=-eq-ok, sym, ◌∙◌,
}
use trust_and_safety_demo.Base.Dict.{Dict, get}
use trust_and_safety_demo.Labels.Status.{cannot_override_manual, value, is_manual, is_automatic}
use trust_and_safety_demo.Labels.State.{
  LabelState, LabelStateInner, is_expired, try_apply_desired_state,
}
use trust_and_safety_demo.Labels.Mutations.{
  EntityLabels, EntityLabelMutation, EntityLabelMutationsResult, desired_state,
}
use trust_and_safety_demo.Labels.Provider.{
  merge_mutations, get_desired_state, get_desired_states_by_label_name,
  compute_new_labels_from_mutations,
}
use trust_and_safety_demo.Labels.Survivors.{top, of_weight, survivors}
use trust_and_safety_demo.Labels.Conflicts.{drop_conflicts-survivors}
use trust_and_safety_demo.Labels.Desired.{get_desired_states_total}
use trust_and_safety_demo.Labels.Computing.{next_state, compute_new_labels-next_state}

dropped_when_manual :
    (now : ℕ) (d : LabelStateInner) (s : LabelState)
    → is_expired now s ≡ ok false
    → is_manual s.status ≡ true
    → is_automatic d.status ≡ true
    → try_apply_desired_state now d s ≡ ok (s, some cannot_override_manual)
unfolding try_apply_desired_state
dropped_when_manual now d s lasts manual automatic = rw (lasts, manual, automatic) refl

-- Every mutation of the label has an automatic status.
abbrev pub all_automatic : String → List EntityLabelMutation → Bool
all_automatic l ms = all (λ m. not (m.label_name == l) || is_automatic m.status) ms

of_weight-automatic :
    (l : String) (v : ℕ) (ms : List EntityLabelMutation) (n : EntityLabelMutation)
    (ns : List EntityLabelMutation)
    → all_automatic l ms ≡ true
    → of_weight l v ms ≡ n ∷ ns
    → is_automatic n.status ≡ true
unfolding of_weight
of_weight-automatic l v [] n ns h e = cc
of_weight-automatic l v (m ∷ ms) n ns h e = ground (arith, of_weight-automatic l v ms n ns)

survivors-automatic :
    (l : String) (ms : List EntityLabelMutation) (n : EntityLabelMutation)
    (ns : List EntityLabelMutation)
    → all_automatic l ms ≡ true
    → survivors l ms ≡ some (n ∷ ns)
    → is_automatic n.status ≡ true
unfolding survivors
survivors-automatic l ms n ns h e = of_weight-automatic l (top l ms) ms n ns h (ground arith)

module _ (created : EntityLabelMutation → ℕ) where
  merge_mutations-status :
      (ms : List EntityLabelMutation) (d d' : LabelStateInner)
      → merge_mutations created ms d ≡ ok d'
      → d'.status ≡ d.status
  unfolding merge_mutations
  merge_mutations-status [] d d' e = cc
  merge_mutations-status (m ∷ ms) d d' e =
      let (out, _, e') =
        >>=-eq-ok _ (λ o. merge_mutations created ms (record d { reasons = o.0 })) e in
      merge_mutations-status ms (record d { reasons = out.0 }) d' e'

  get_desired_state-status :
      (ms : List EntityLabelMutation) (d : LabelStateInner)
      → get_desired_state created ms ≡ ok d
      → (n : EntityLabelMutation) × (ns : List EntityLabelMutation) × (ms ≡ n ∷ ns)
        × (d.status ≡ n.status)
  unfolding get_desired_state desired_state
  get_desired_state-status [] d e = cc
  get_desired_state-status (m ∷ ms) d e =
      elim (Bool-cases (all (λ n. value n.status == value m.status) ms)) [
        | inl uniform ↦ (
          m,
          ms,
          refl,
          merge_mutations-status ms (desired_state (created m) m) d (rw uniform at e),
        )
        | inr mixed ↦ let bad : err assertion_error ≡ ok d = rw mixed at e in cc
      ]

  -- The desired state of a label has the status of one of the label's mutations.
  desired-status :
      (by_label_name : Dict String (List EntityLabelMutation)) (ds : Dict String LabelStateInner)
      (l : String) (d : LabelStateInner)
      → get_desired_states_by_label_name created by_label_name ≡ ok ds
      → get l ds ≡ some d
      → (n : EntityLabelMutation) × (ns : List EntityLabelMutation) × (get l by_label_name
          ≡ some (n ∷ ns))
        × (d.status ≡ n.status)
  unfolding get_desired_states_by_label_name get
  desired-status [] ds l d e g =
      let empty : ds ≡ [] = cc in let absent : none ≡ some d = rw empty at g in cc
  desired-status ((k, ms) ∷ rest) ds l d e g =
      let (d', e', h) = >>=-eq-ok (get_desired_state created ms) _ e in
      let (ds', e'', h') = >>=-eq-ok (get_desired_states_by_label_name created rest) _ h in
      let built : (k, d') ∷ ds' ≡ ds = cc in
      let g' : (if k == l then some d' else get l ds') ≡ some d = rw (← built) at g in
      elim (Bool-cases (k == l)) [
        | inl same ↦
            let (n, ns, shape, status) = get_desired_state-status ms d' e' in
            let mine : some d' ≡ some d = rw same at g' in (n, ns, rw (same, shape) refl, cc)
        | inr other ↦
            let (n, ns, stored, status) = desired-status rest ds' l d e'' (rw other at g') in
            (n, ns, rw other stored, status)
      ]

-- A label whose state was set manually and is not expired has the same state, unchanged, after
-- any request whose mutations of that label are all automatic, if computing the new labels gives
-- a result.
pub manual_label_kept :
    (created : EntityLabelMutation → ℕ) (now : String → ℕ) (labels : EntityLabels)
    (mutations : List EntityLabelMutation) (r : EntityLabelMutationsResult) (l : String)
    (s : LabelState)
    → get l labels.labels ≡ some s
    → is_manual s.status ≡ true
    → is_expired (now l) s ≡ ok false
    → all (λ m. not (m.label_name == l) || is_automatic m.status) mutations ≡ true
    → compute_new_labels_from_mutations created now labels mutations ≡ ok r
    → get l r.new_entity_labels.labels ≡ some s
manual_label_kept created now labels mutations r l s old manual lasts automatic h =
    let (c, e, held) = drop_conflicts-survivors mutations in
    let (ds, e', v, k) = get_desired_states_total created mutations c e in
    let next = (compute_new_labels-next_state created now labels mutations r c ds l e e' h).0 in
    elim (Option-cases (get l ds)) [
      | inl none_desired ↦
          let same : ok (get l labels.labels) ≡ ok (get l r.new_entity_labels.labels) =
            rw none_desired at next in
          cc
      | inr (d, desired) ↦
          let (n, ns, stored, status) = desired-status created c.by_label_name ds l d e' desired in
          let auto = survivors-automatic l mutations n ns automatic (sym (held l) ∙ stored) in
          let next' : next_state (now l) (some d) (some s) ≡ ok (get l r.new_entity_labels.labels) =
            rw (desired, old) at next in
          let kept = dropped_when_manual (now l) d s lasts manual (rw status auto) in
          let same : ok (some s) ≡ ok (get l r.new_entity_labels.labels) = rw kept at next' in cc
    ]
