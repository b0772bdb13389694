-- ===== src/Labels/Status.antt =====
-- `LabelStatus` and `MutationDropReason` of osprey_shared/labels.py.
use trust_and_safety_demo.Base.{ℕ, ◌≡◌, Bool, true, false, not, arith}

pub data MutationDropReason : Type 0 where
  conflicting_mutation cannot_override_manual invalid_label_name invalid_entity_id :
      MutationDropReason

pub data LabelStatus : Type 0 where
  removed added manually_removed manually_added : LabelStatus

-- `status.value`, the weight of a status.
unfoldable pub value : LabelStatus → ℕ
value removed = 0
value added = 1
value manually_removed = 2
value manually_added = 3

unfoldable pub effective_label_status : LabelStatus → LabelStatus
effective_label_status added = added
effective_label_status manually_added = added
effective_label_status removed = removed
effective_label_status manually_removed = removed

unfoldable pub is_manual : LabelStatus → Bool
is_manual manually_added = true
is_manual manually_removed = true
is_manual _ = false

unfoldable pub is_automatic : LabelStatus → Bool
unfolding is_manual
is_automatic s = not (is_manual s)

pub value_injective : (s t : LabelStatus) → value s ≡ value t → s ≡ t
unfolding value
value_injective s t h = ground arith
