-- ===== src/Labels/Applying.antt =====
-- What `try_apply_desired_state` does to a label state.
use trust_and_safety_demo.Base.{
  ℕ, ◌<◌, ◌≡◌, ◌≢◌, Bool, true, false, ◌&&◌, ◌||◌, not, Option, none, some, [], ◌∷◌, arith, ok, all,
  refl, if◌then◌else◌, inl, inr, Bool-cases, Result-cases, ◌==◌, nat_eq,
}
use trust_and_safety_demo.Labels.Status.{
  MutationDropReason, cannot_override_manual, value, is_manual, is_automatic, value_injective,
}
use trust_and_safety_demo.Labels.Reasons.{LabelReasons, reason_is_expired}
use trust_and_safety_demo.Labels.Merging.{AreDated, insert_all_dated}
use trust_and_safety_demo.Labels.State.{
  LabelState, LabelStateInner, to_inner, is_expired, shift_current_state_to_previous_state,
  merge_desired_state, try_apply_desired_state,
}
use trust_and_safety_demo.Labels.Expiry.{is_expired-all}

-- The reasons of a state: at least one, and each with its time of creation.
pub record IsValid (reasons : LabelReasons) : Type 0 where
  pub nonempty : reasons ≢ []
  pub dated : AreDated reasons

abbrev all_expired : ℕ → LabelState → Bool
all_expired now s = all (λ p. reason_is_expired now p.1) s.reasons

-- The desired state is blocked: the current one is manual and lasts, the desired one is automatic.
abbrev pub blocked : ℕ → LabelStateInner → LabelState → Bool
blocked now desired s =
    not (all_expired now s) && (is_manual s.status && is_automatic desired.status)

shift_lem :
    (s : LabelState)
    → s.reasons ≢ []
    → shift_current_state_to_previous_state s
      ≡ record s { reasons = []; previous_states = to_inner s ∷ s.previous_states }
unfolding shift_current_state_to_previous_state
shift_lem s h = ground arith

-- The current state with the desired one merged in: what is left when nothing blocks it.
record Merged (desired : LabelStateInner) (s t : LabelState) : Type 0 where
  status : t.status ≡ desired.status
  valid : IsValid t.reasons
  history : t.previous_states ≡ (
      if value s.status == value desired.status
      then s.previous_states
      else to_inner s ∷ s.previous_states)

merge_desired_state_valid :
    (desired : LabelStateInner) (s : LabelState)
    → IsValid desired.reasons
    → IsValid s.reasons
    → (t : LabelState) × (merge_desired_state desired s ≡ ok t) × Merged desired s t
unfolding merge_desired_state
merge_desired_state_valid desired s hd hs =
    elim (Bool-cases (value s.status == value desired.status)) [
      | inl same ↦
          let (out, e, dated, some_) =
            insert_all_dated desired.reasons s.reasons hd.dated hs.dated in
          (
            record s { reasons = out },
            ground arith,
            record {
              status = value_injective s.status desired.status (ground arith);
              valid = record { nonempty = some_ (inl hd.nonempty); dated = dated };
              history = rw same refl;
            },
          )
      | inr other ↦
          let (out, e, dated, some_) = insert_all_dated desired.reasons [] hd.dated tt in
          (
            record {
              status = desired.status;
              reasons = out;
              previous_states = to_inner s ∷ s.previous_states;
            },
            ground (arith, shift_lem s hs.nonempty),
            record {
              status = refl;
              valid = record { nonempty = some_ (inl hd.nonempty); dated = dated };
              history = rw other refl;
            },
          )
    ]

-- What becomes of a state `s`: the new state and the reason for dropping the desired one.
pub record Applied (now : ℕ) (desired : LabelStateInner) (s : LabelState)
    (out : LabelState × Option MutationDropReason) : Type 0 where
  pub valid : IsValid out.0.reasons
  pub drop : out.1 ≡ (if blocked now desired s then some cannot_override_manual else none)
  pub status : out.0.status ≡ (if blocked now desired s then s.status else desired.status)
  pub history : out.0.previous_states ≡ (
      if blocked now desired s || not (all_expired now s) && value s.status == value desired.status
      then s.previous_states
      else to_inner s ∷ s.previous_states)

-- From a state and a desired state that have reasons, each with its time of creation, the code
-- does not raise, and the new state again has such reasons. The desired state is dropped exactly
-- when the current one is manual and not expired and the desired one is automatic; then the
-- status and the history stay. Else the status is the desired one; the old status and reasons
-- enter the history in front, unless the state is not expired and the status is the same.
pub try_apply_desired_state_total :
    (now : ℕ) (desired : LabelStateInner) (s : LabelState)
    → IsValid desired.reasons
    → IsValid s.reasons
    → (out : LabelState × Option MutationDropReason) × (try_apply_desired_state now desired s
        ≡ ok out)
      × Applied now desired s out
unfolding try_apply_desired_state
try_apply_desired_state_total now desired s hd hs = elim (Bool-cases (all_expired now s)) [
  | inl expired ↦ (
    (
      record {
        status = desired.status;
        reasons = desired.reasons;
        previous_states = to_inner s ∷ s.previous_states;
      },
      none,
    ),
    ground (arith, is_expired-all now s hs.nonempty, shift_lem s hs.nonempty),
    record {
      valid = hd;
      drop = rw expired refl;
      status = rw expired refl;
      history = rw expired refl;
    },
  )
  | inr lasts ↦ elim (Bool-cases (is_manual s.status && is_automatic desired.status)) [
    | inl manual ↦ (
      (s, some cannot_override_manual),
      ground (arith, is_expired-all now s hs.nonempty),
      record {
        valid = hs;
        drop = rw (lasts, manual) refl;
        status = rw (lasts, manual) refl;
        history = rw (lasts, manual) refl;
      },
    )
    | inr free ↦
        let (t, e, m) = merge_desired_state_valid desired s hd hs in
        (
          (t, none),
          ground (arith, is_expired-all now s hs.nonempty),
          record {
            valid = m.valid;
            drop = rw (lasts, free) refl;
            status = rw (lasts, free) m.status;
            history = rw (lasts, free) m.history;
          },
        )
  ]
]

-- When a desired state is dropped the label state is left as it was, and the reason given is that
-- an automatic status cannot override a manual one.
pub try_apply_desired_state-dropped :
    (now : ℕ) (desired : LabelStateInner) (s t : LabelState) (d : MutationDropReason)
    → try_apply_desired_state now desired s ≡ ok (t, some d)
    → (t ≡ s)
      × (d ≡ cannot_override_manual)
      × (is_manual s.status ≡ true)
      × (is_automatic desired.status ≡ true)
unfolding try_apply_desired_state
try_apply_desired_state-dropped now desired s t d h = ground arith

merge_desired_state-status :
    (desired : LabelStateInner) (s t : LabelState)
    → merge_desired_state desired s ≡ ok t
    → t.status ≡ desired.status
unfolding merge_desired_state
merge_desired_state-status desired s t h = ground (arith, value_injective s.status desired.status)

-- A desired state of less weight than the current, unexpired one is accepted all the same, and
-- its status takes over, where both statuses are automatic or both are manual.
pub lower_weight_accepted :
    (now : ℕ) (desired : LabelStateInner) (s t : LabelState) (o : Option MutationDropReason)
    → is_expired now s ≡ ok false
    → is_manual s.status ≡ is_manual desired.status
    → value desired.status < value s.status
    → try_apply_desired_state now desired s ≡ ok (t, o)
    → (o ≡ none) × (t.status ≡ desired.status)
unfolding try_apply_desired_state is_automatic
lower_weight_accepted now desired s t o e m w h =
    elim (Result-cases (merge_desired_state desired s)) [
      | inl (t', e') ↦ ground (arith, merge_desired_state-status desired s t' e')
      | inr (x, e') ↦ absurd (ground arith)
    ]
