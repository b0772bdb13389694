-- ===== src/Labels/Mutations.antt =====
-- `EntityLabels`, `EntityLabelMutation` and the result of mutations, of osprey_shared/labels.py.
use trust_and_safety_demo.Base.{ℕ, String, Bool, Option, some, List, [], ◌∷◌}
use trust_and_safety_demo.Base.Dict.{Dict}
use trust_and_safety_demo.Labels.Status.{LabelStatus, MutationDropReason}
use trust_and_safety_demo.Labels.Reasons.{LabelReason}
use trust_and_safety_demo.Labels.State.{LabelState, LabelStateInner}

pub record EntityLabels : Type 0 where
  pub labels : Dict String LabelState

pub record EntityLabelMutation : Type 0 where
  pub label_name : String
  pub reason_name : String
  pub status : LabelStatus
  pub pending : Bool
  pub description : String
  pub features : Dict String String
  pub expires_at : Option ℕ

-- The property `reason`, read at the instant `now`.
unfoldable pub reason : ℕ → EntityLabelMutation → LabelReason
reason now m = record {
  pending = m.pending;
  description = m.description;
  features = m.features;
  created_at = some now;
  expires_at = m.expires_at;
}

-- `mutation.desired_state()`, called at the instant `now`.
unfoldable pub desired_state : ℕ → EntityLabelMutation → LabelStateInner
unfolding reason
desired_state now m = record { status = m.status; reasons = (m.reason_name, reason now m) ∷ [] }

pub record DroppedEntityLabelMutation : Type 0 where
  pub mutation : EntityLabelMutation
  pub reason : MutationDropReason

pub record EntityLabelMutationsResult : Type 0 where
  pub new_entity_labels : EntityLabels
  pub old_entity_labels : EntityLabels
  pub labels_added : List String
  pub labels_removed : List String
  pub labels_updated : List String
  pub dropped_mutations : List DroppedEntityLabelMutation
