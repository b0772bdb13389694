-- ===== src/Labels/State.antt =====
-- `LabelStateInner` and `LabelState` of osprey_shared/labels.py. A method that raises gives the
-- exception alone: the half-changed object belongs to labels that the caller then discards.
use Prim.Native.Nat.{max}
use trust_and_safety_demo.Base.{
  ℕ, ◌+◌, Bool, false, ◌&&◌, Option, none, some, List, [], ◌∷◌, if◌then◌else◌, ltb, ◌==◌, Result,
  ok, err, assertion_error, ◌>>=◌, nat_eq,
}
use trust_and_safety_demo.Labels.Status.{
  LabelStatus, MutationDropReason, cannot_override_manual, value, is_manual, is_automatic,
}
use trust_and_safety_demo.Labels.Reasons.{LabelReasons, grace, insert_all}

pub record LabelStateInner : Type 0 where
  pub status : LabelStatus
  pub reasons : LabelReasons

pub record LabelState : Type 0 where
  pub status : LabelStatus
  pub reasons : LabelReasons
  pub previous_states : List LabelStateInner

-- The loop of `expires_at`; `none` is its early `return None`.
unfoldable pub latest : ℕ → LabelReasons → Option ℕ
latest acc [] = some acc
latest acc ((_, r) ∷ rest) = elim r.expires_at [ none ↦ none | some t ↦ latest (max t acc) rest ]

-- The property `expires_at`; `datetime.min` is instant 0.
unfoldable pub expires_at : LabelState → Result (Option ℕ)
unfolding latest
expires_at s = elim s.reasons [ [] ↦ err assertion_error | _ ∷ _ ↦ ok (latest 0 s.reasons) ]

-- `is_expired`, the clock showing `now`.
unfoldable pub is_expired : ℕ → LabelState → Result Bool
unfolding expires_at
is_expired now s = do e ← expires_at s; ok (elim e [ none ↦ false | some t ↦ ltb (t + grace) now ])

unfoldable pub from_inner : LabelStateInner → LabelState
from_inner inner = record { status = inner.status; reasons = inner.reasons; previous_states = [] }

abbrev pub to_inner : LabelState → LabelStateInner
to_inner s = record { status = s.status; reasons = s.reasons }

unfoldable pub shift_current_state_to_previous_state : LabelState → LabelState
shift_current_state_to_previous_state s = elim s.reasons [
  | [] ↦ s
  | _ ∷ _ ↦ record s { reasons = []; previous_states = to_inner s ∷ s.previous_states }
]

-- The branch of `try_apply_desired_state` in which the desired state is merged or takes over.
unfoldable pub merge_desired_state : LabelStateInner → LabelState → Result LabelState
unfolding shift_current_state_to_previous_state
merge_desired_state desired s = do
  let t =
      if value s.status == value desired.status
      then s
      else record (shift_current_state_to_previous_state s) { status = desired.status }
  reasons' ← insert_all desired.reasons t.reasons
  ok (record t { reasons = reasons' })

-- The state afterwards, and the reason for dropping the desired state, if it was dropped.
unfoldable pub try_apply_desired_state :
    ℕ → LabelStateInner → LabelState → Result (LabelState × Option MutationDropReason)
unfolding is_expired merge_desired_state
try_apply_desired_state now desired s = do
  expired ← is_expired now s
  if expired
      then ok (
        record (shift_current_state_to_previous_state s) {
          status = desired.status;
          reasons = desired.reasons;
        },
        none,
      )
      else if is_manual s.status && is_automatic desired.status
      then ok (s, some cannot_override_manual)
      else do t ← merge_desired_state desired s; ok (t, none)
