-- ===== src/Labels/Serial.antt =====
-- `serialize` and `deserialize` of osprey_shared/labels.py. A dict that they write or read is a record
-- of its keys, where `none` is a missing key. `isoformat` and `fromisoformat` are parameters.
use trust_and_safety_demo.Base.{
  ℕ, zero, suc, String, Bool, false, Option, none, some, List, [], ◌∷◌, map, if◌then◌else◌, ◌==◌,
  string_eq, Result, ok, err, type_error, key_error, value_error, ◌>>=◌,
}
use trust_and_safety_demo.Base.Dict.{Dict, put}
use trust_and_safety_demo.Labels.Status.{
  LabelStatus, removed, added, manually_removed, manually_added, value,
}
use trust_and_safety_demo.Labels.Reasons.{LabelReason, LabelReasons}
use trust_and_safety_demo.Labels.State.{LabelStateInner, LabelState}
use trust_and_safety_demo.Labels.Mutations.{EntityLabels}

-- An instant may be missing, `None`, or a text.
pub record ReasonDict : Type 0 where
  pub pending : Option Bool
  pub description : Option String
  pub features : Option (Dict String String)
  pub created_at : Option (Option String)
  pub expires_at : Option (Option String)

pub record StateInnerDict : Type 0 where
  pub status : Option ℕ
  pub reasons : Option (Dict String ReasonDict)

pub record StateDict : Type 0 where
  pub status : Option ℕ
  pub reasons : Option (Dict String ReasonDict)
  pub previous_states : Option (List StateInnerDict)

-- The dict of an entity's labels, under the key `labels` or by itself.
pub data LabelsDict : Type 0 where
  under_labels : Dict String StateDict → LabelsDict
  bare : Dict String StateDict → LabelsDict

-- `LabelStatus(n)`
unfoldable pub status_of : ℕ → Result LabelStatus
status_of zero = ok removed
status_of (suc zero) = ok added
status_of (suc (suc zero)) = ok manually_removed
status_of (suc (suc (suc zero))) = ok manually_added
status_of _ = err value_error

unfoldable pub get_or {ℓ} : {A : Type ℓ} → A → Option A → A
get_or default none = default
get_or default (some a) = a

unfoldable pub item {ℓ} : {A : Type ℓ} → Option A → Result A
item none = err key_error
item (some a) = ok a

-- `except Exception as e: raise TypeError(...)`
unfoldable pub or_type_error {ℓ} : {A : Type ℓ} → Result A → Result A
or_type_error (ok a) = ok a
or_type_error (err e) = err type_error

-- The dict of a comprehension or a loop over a dict's items, from the dict of those before.
unfoldable pub read_items {ℓ κ} :
    {A : Type ℓ} {B : Type κ}
    → (A → Result B)
    → Dict String A
    → Dict String B
    → Result (Dict String B)
read_items f [] d = ok d
read_items f ((k, a) ∷ os) d = f a >>= λ b. read_items f os (put k b d)

unfoldable pub read_list {ℓ κ} :
    {A : Type ℓ} {B : Type κ} → (A → Result B) → List A → Result (List B)
read_list f [] = ok []
read_list f (a ∷ as') = f a >>= λ b. read_list f as' >>= λ bs. ok (b ∷ bs)

unfoldable pub write_items {ℓ κ} :
    {A : Type ℓ} {B : Type κ} → (A → B) → Dict String A → Dict String B
write_items f [] = []
write_items f ((k, a) ∷ os) = (k, f a) ∷ write_items f os

module _ (isoformat : ℕ → String) (fromisoformat : String → Result ℕ) where
  unfoldable pub write_instant : Option ℕ → Option (Option String)
  write_instant none = some none
  write_instant (some t) = some (some (isoformat t))

  -- `datetime.fromisoformat(d[k]) if d.get(k) else None`
  unfoldable pub read_instant : Option (Option String) → Result (Option ℕ)
  read_instant none = ok none
  read_instant (some none) = ok none
  read_instant (some (some s)) = if s == "" then ok none else (fromisoformat s >>= λ t. ok (some t))

  unfoldable pub reason_serialize : LabelReason → ReasonDict
  unfolding write_instant
  reason_serialize r = record {
    pending = some r.pending;
    description = some r.description;
    features = some r.features;
    created_at = write_instant r.created_at;
    expires_at = write_instant r.expires_at;
  }

  unfoldable pub reason_deserialize : ReasonDict → Result LabelReason
  unfolding read_instant get_or
  reason_deserialize d = do
    created ← read_instant d.created_at
    expires ← read_instant d.expires_at
    ok (record {
      pending = get_or false d.pending;
      description = get_or "" d.description;
      features = get_or [] d.features;
      created_at = created;
      expires_at = expires;
    })

  unfoldable pub reasons_serialize : LabelReasons → Dict String ReasonDict
  unfolding write_items reason_serialize
  reasons_serialize rs = write_items reason_serialize rs

  unfoldable pub reasons_deserialize : Dict String ReasonDict → Result LabelReasons
  unfolding read_items or_type_error reason_deserialize
  reasons_deserialize d = read_items (λ r. or_type_error (reason_deserialize r)) d []

  unfoldable pub state_inner_serialize : LabelStateInner → StateInnerDict
  unfolding reasons_serialize value
  state_inner_serialize s = record {
    status = some (value s.status);
    reasons = some (reasons_serialize s.reasons);
  }

  unfoldable pub state_inner_deserialize : StateInnerDict → Result LabelStateInner
  unfolding reasons_deserialize or_type_error item status_of
  state_inner_deserialize d = or_type_error (do
    n ← item d.status
    status ← status_of n
    rs ← item d.reasons
    reasons ← reasons_deserialize rs
    ok (record { status = status; reasons = reasons }))

  unfoldable pub state_serialize : LabelState → StateDict
  unfolding reasons_serialize state_inner_serialize value
  state_serialize s = record {
    status = some (value s.status);
    reasons = some (reasons_serialize s.reasons);
    previous_states = some (map state_inner_serialize s.previous_states);
  }

  unfoldable pub state_deserialize : StateDict → Result LabelState
  unfolding reasons_deserialize state_inner_deserialize or_type_error item status_of read_list
      get_or
  state_deserialize d = or_type_error (do
    n ← item d.status
    status ← status_of n
    rs ← item d.reasons
    reasons ← reasons_deserialize rs
    previous ← read_list state_inner_deserialize (get_or [] d.previous_states)
    ok (record { status = status; reasons = reasons; previous_states = previous }))

  unfoldable pub labels_serialize : EntityLabels → LabelsDict
  unfolding write_items state_serialize
  labels_serialize l = under_labels (write_items state_serialize l.labels)

  unfoldable pub labels_deserialize : LabelsDict → Result EntityLabels
  unfolding read_items state_deserialize or_type_error
  labels_deserialize (under_labels d) =
      or_type_error (do labels ← read_items state_deserialize d []; ok (record { labels = labels }))
  labels_deserialize (bare d) =
      or_type_error (do labels ← read_items state_deserialize d []; ok (record { labels = labels }))
