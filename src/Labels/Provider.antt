-- ===== src/Labels/Provider.antt =====
-- `LabelsProvider` of storage/labels.py: how the mutations of one request become new labels. The
-- clock is two functions: `created` gives the instant at which the reason of a mutation is read,
-- and `now` the instant at which the state of a label is tested for expiry, which happens once for
-- each label of a request.
use trust_and_safety_demo.Base.{
  ℕ, String, Option, none, some, List, [], ◌∷◌, ◌++◌, map, if◌then◌else◌, ltb, ◌==◌, nat_eq,
  string_eq, all, Result, ok, err, index_error, key_error, assertion_error, guard, ◌>>=◌, ◌>>◌,
}
use trust_and_safety_demo.Base.Dict.{Dict, get, put}
use trust_and_safety_demo.Labels.Status.{
  LabelStatus, MutationDropReason, conflicting_mutation, invalid_label_name, invalid_entity_id,
  value, effective_label_status,
}
use trust_and_safety_demo.Labels.Reasons.{insert_or_update}
use trust_and_safety_demo.Labels.State.{
  LabelState, LabelStateInner, from_inner, try_apply_desired_state,
}
use trust_and_safety_demo.Labels.Mutations.{
  EntityLabels, EntityLabelMutation, reason, desired_state, DroppedEntityLabelMutation,
  EntityLabelMutationsResult,
}

abbrev pub drop_as : MutationDropReason → EntityLabelMutation → DroppedEntityLabelMutation
drop_as r m = record { mutation = m; reason = r }

-- The two local variables of `_get_mutations_by_label_name_and_drop_conflicts`.
pub record Collected : Type 0 where
  pub by_label_name : Dict String (List EntityLabelMutation)
  pub dropped : List DroppedEntityLabelMutation

-- `mutations_by_label_name[label_name].append(mutation)`, of a `defaultdict(list)`.
unfoldable pub append_mutation : EntityLabelMutation → Collected → Collected
append_mutation m c = record c {
  by_label_name =
      put m.label_name
        (elim (get m.label_name c.by_label_name) [ none ↦ m ∷ [] | some ms ↦ ms ++ m ∷ [] ])
        c.by_label_name;
}

-- The body of the loop.
unfoldable pub collect_one : EntityLabelMutation → Collected → Result Collected
unfolding append_mutation
collect_one m c =
    if m.label_name == ""
    then ok (record c { dropped = c.dropped ++ drop_as invalid_label_name m ∷ [] })
    else elim (get m.label_name c.by_label_name) [
      | none ↦ ok (append_mutation m c)
      | some [] ↦ err index_error
      | some (other ∷ others) ↦
          if ltb (value other.status) (value m.status)
          then ok (record {
            by_label_name = put m.label_name (m ∷ []) c.by_label_name;
            dropped = c.dropped ++ map (drop_as conflicting_mutation) (other ∷ others);
          })
          else if ltb (value m.status) (value other.status)
          then ok (record c { dropped = c.dropped ++ drop_as conflicting_mutation m ∷ [] })
          else ok (append_mutation m c)
    ]

unfoldable pub collect : List EntityLabelMutation → Collected → Result Collected
unfolding collect_one
collect [] c = ok c
collect (m ∷ ms) c = do c' ← collect_one m c; collect ms c'

unfoldable pub get_mutations_by_label_name_and_drop_conflicts :
    List EntityLabelMutation → Result Collected
unfolding collect
get_mutations_by_label_name_and_drop_conflicts mutations =
    collect mutations (record { by_label_name = []; dropped = [] })

module _ (created : EntityLabelMutation → ℕ) where
  -- The loop over `mutations[1:]`.
  unfoldable pub merge_mutations :
      List EntityLabelMutation → LabelStateInner → Result LabelStateInner
  merge_mutations [] d = ok d
  merge_mutations (m ∷ ms) d = do
    (reasons', _) ← insert_or_update m.reason_name (reason (created m) m) d.reasons
    merge_mutations ms (record d { reasons = reasons' })

  -- The body of the loop of `_get_desired_states_by_label_name`, for one label's mutations.
  unfoldable pub get_desired_state : List EntityLabelMutation → Result LabelStateInner
  unfolding merge_mutations
  get_desired_state [] = err assertion_error
  get_desired_state (m ∷ ms) = do
    guard (all (λ n. value n.status == value m.status) ms) assertion_error
    merge_mutations ms (desired_state (created m) m)

  -- The keys of `mutations_by_label_name` are distinct, so each state is stored under a new key.
  unfoldable pub get_desired_states_by_label_name :
      Dict String (List EntityLabelMutation) → Result (Dict String LabelStateInner)
  unfolding get_desired_state
  get_desired_states_by_label_name [] = ok []
  get_desired_states_by_label_name ((label_name, mutations) ∷ rest) = do
    d ← get_desired_state mutations
    ds ← get_desired_states_by_label_name rest
    ok ((label_name, d) ∷ ds)

-- The labels that are changed in place, and the lists of the result.
pub record Progress : Type 0 where
  pub labels : Dict String LabelState
  pub added : List String
  pub removed : List String
  pub updated : List String
  pub dropped : List DroppedEntityLabelMutation

-- `_append_result(new_status)`
unfoldable pub append_result : String → LabelStatus → Progress → Progress
append_result label_name new_status p = elim (effective_label_status new_status) [
  | LabelStatus.added ↦ record p { added = p.added ++ label_name ∷ [] }
  | LabelStatus.removed ↦ record p { removed = p.removed ++ label_name ∷ [] }
  | _ ↦ p
]

-- `if drop_reason:`, where the `IntEnum` member with the value 0 counts as false.
unfoldable pub if_truthy : Option MutationDropReason → Option MutationDropReason
if_truthy none = none
if_truthy (some conflicting_mutation) = none
if_truthy (some r) = some r

module _ (now : String → ℕ) (by_label_name : Dict String (List EntityLabelMutation)) where
  -- What the loop does once the state of the label has taken or refused the desired one.
  unfoldable pub record_outcome :
      String → LabelState → LabelState × Option MutationDropReason → Progress → Result Progress
  unfolding append_result if_truthy
  record_outcome label_name current (state, drop_reason) p =
      let p' : Progress = record p { labels = put label_name state p.labels } in
      elim (if_truthy drop_reason) [
        | some r ↦ elim (get label_name by_label_name) [
          | none ↦ err key_error
          | some ms ↦ ok (record p' { dropped = p.dropped ++ map (drop_as r) ms })
        ]
        | none ↦
            if value current.status == value state.status
            then ok (record p' { updated = p.updated ++ label_name ∷ [] })
            else ok (append_result label_name state.status p')
      ]

  -- The body of the loop of `_compute_new_labels_from_mutations`.
  unfoldable pub apply_one : String → LabelStateInner → Progress → Result Progress
  unfolding record_outcome
  apply_one label_name desired p = elim (get label_name p.labels) [
    | none ↦
        let new_state = from_inner desired in
        ok (
          append_result label_name new_state.status
            (record p { labels = put label_name new_state p.labels }))
    | some current ↦ do
      outcome ← try_apply_desired_state (now label_name) desired current
      record_outcome label_name current outcome p
  ]

  unfoldable pub apply_all : Dict String LabelStateInner → Progress → Result Progress
  unfolding apply_one
  apply_all [] p = ok p
  apply_all ((label_name, desired) ∷ rest) p = do
    p' ← apply_one label_name desired p
    apply_all rest p'

-- The local variables before the loop, and the result that they make after it.
abbrev pub start : EntityLabels → Collected → Progress
start labels c = record {
  labels = labels.labels;
  added = [];
  removed = [];
  updated = [];
  dropped = c.dropped;
}

abbrev pub finish : EntityLabels → Progress → EntityLabelMutationsResult
finish labels p = record {
  new_entity_labels = record { labels = p.labels };
  old_entity_labels = labels;
  labels_added = p.added;
  labels_removed = p.removed;
  labels_updated = p.updated;
  dropped_mutations = p.dropped;
}

module _ (created : EntityLabelMutation → ℕ) (now : String → ℕ) where
  unfoldable pub compute_new_labels_from_mutations :
      EntityLabels → List EntityLabelMutation → Result EntityLabelMutationsResult
  unfolding get_mutations_by_label_name_and_drop_conflicts get_desired_states_by_label_name
      apply_all
  compute_new_labels_from_mutations labels mutations = do
    c ← get_mutations_by_label_name_and_drop_conflicts mutations
    desired ← get_desired_states_by_label_name created c.by_label_name
    p ← apply_all now c.by_label_name desired (start labels c)
    ok (finish labels p)

  -- `apply_entity_label_mutations`: `entity_id` is `str(entity.id)`, and `read` is what the labels
  -- service yields, or its exception.
  unfoldable pub apply_entity_label_mutations :
      String → Result EntityLabels → List EntityLabelMutation → Result EntityLabelMutationsResult
  unfolding compute_new_labels_from_mutations
  apply_entity_label_mutations entity_id read mutations =
      if entity_id == ""
      then ok (record {
        new_entity_labels = record { labels = [] };
        old_entity_labels = record { labels = [] };
        labels_added = [];
        labels_removed = [];
        labels_updated = [];
        dropped_mutations = map (drop_as invalid_entity_id) mutations;
      })
      else do labels ← read; compute_new_labels_from_mutations labels mutations
