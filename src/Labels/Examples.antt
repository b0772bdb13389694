-- ===== src/Labels/Examples.antt =====
-- Small inputs, what the label code does on them, and the theorems at these inputs.
use trust_and_safety_demo.Base.{
  ℕ, ◌≡◌, String, false, Option, none, some, List, [], ◌∷◌, arith, refl, All, zero, suc, ap, Result,
  value_error, type_error, Bool-cases, inl, inr, ok, err, key_error, string_eq, nat_eq, ◌==◌,
}
use trust_and_safety_demo.Base.Dict.{Dict, get, put, keys}
use trust_and_safety_demo.Labels.Status.{
  LabelStatus, MutationDropReason, added, removed, manually_removed, cannot_override_manual,
  conflicting_mutation, invalid_label_name, invalid_entity_id, value, is_manual, is_automatic,
  effective_label_status,
}
use trust_and_safety_demo.Labels.Reasons.{
  LabelReason, LabelReasons, reason_is_expired, insert_all, insert_or_update,
}
use trust_and_safety_demo.Labels.Merging.{insert_all-created_at}
use trust_and_safety_demo.Labels.State.{
  LabelState, LabelStateInner, from_inner, try_apply_desired_state,
}
use trust_and_safety_demo.Labels.Applying.{IsValid, Applied, try_apply_desired_state_total}
use trust_and_safety_demo.Labels.Mutations.{
  EntityLabels, EntityLabelMutation, EntityLabelMutationsResult, reason, desired_state,
}
use trust_and_safety_demo.Labels.Provider.{
  Collected, get_mutations_by_label_name_and_drop_conflicts, get_desired_states_by_label_name,
  compute_new_labels_from_mutations, apply_entity_label_mutations,
}
use trust_and_safety_demo.Labels.Survivors.{top, of_weight, named, survivors}
use trust_and_safety_demo.Labels.Conflicts.{drop_conflicts-survivors}
use trust_and_safety_demo.Labels.Desired.{get_desired_states_total}
use trust_and_safety_demo.Labels.Computing.{
  AreValid, next_state, compute_new_labels_total, compute_new_labels-next_state,
}
use trust_and_safety_demo.Labels.Manual.{manual_label_kept}
use Prim.Native.String as S
use Prim.Native.Char.{nul}
use trust_and_safety_demo.Labels.Serial.{bare, labels_serialize, labels_deserialize}
use trust_and_safety_demo.Labels.RoundTrip.{labels_deserialize-serialize}

program : Unit {0}
unfolding apply_entity_label_mutations value is_manual is_automatic reason_is_expired insert_all
    insert_or_update effective_label_status desired_state from_inner try_apply_desired_state get put
    top of_weight named survivors reason
program = tt

abbrev since : ℕ → Option ℕ → LabelReason
since created expires = record {
  pending = false;
  description = "";
  features = [];
  created_at = some created;
  expires_at = expires;
}

abbrev because : String → LabelReason → LabelReasons
because name r = (name, r) ∷ []

abbrev state : LabelStatus → LabelReasons → LabelState
state s r = record { status = s; reasons = r; previous_states = [] }

abbrev desire : LabelStatus → LabelReasons → LabelStateInner
desire s r = record { status = s; reasons = r }

abbrev mutation : String → String → LabelStatus → EntityLabelMutation
mutation l r s = record {
  label_name = l;
  reason_name = r;
  status = s;
  pending = false;
  description = "";
  features = [];
  expires_at = none;
}

-- A human has removed "spam" for good; "bot" was added by a rule.
abbrev entity : EntityLabels
entity = record {
  labels =
      ("spam", state manually_removed (because "human" (since 10 none)))
      ∷ ("bot", state added (because "rule" (since 20 (some 30))))
      ∷ [];
}

abbrev request : List EntityLabelMutation
request =
    mutation "bot" "rule" removed
    ∷ mutation "spam" "rule" added
    ∷ mutation "" "rule" added
    ∷ mutation "bot" "other" added
    ∷ mutation "new" "rule" added
    ∷ []

abbrev created : EntityLabelMutation → ℕ
created m = 100

abbrev now : String → ℕ
now l = 100

abbrev after : EntityLabels
after = record {
  labels =
      ("spam", state manually_removed (because "human" (since 10 none)))
      ∷ ("bot", state added (("rule", since 20 (some 30)) ∷ ("other", since 100 none) ∷ []))
      ∷ ("new", state added (because "rule" (since 100 none)))
      ∷ [];
}

abbrev result : EntityLabelMutationsResult
result = record {
  new_entity_labels = after;
  old_entity_labels = entity;
  labels_added = "new" ∷ [];
  labels_removed = [];
  labels_updated = "bot" ∷ [];
  dropped_mutations =
      record { mutation = mutation "" "rule" added; reason = invalid_label_name }
      ∷ record { mutation = mutation "bot" "rule" removed; reason = conflicting_mutation }
      ∷ record { mutation = mutation "spam" "rule" added; reason = cannot_override_manual }
      ∷ [];
}

compute-request : compute_new_labels_from_mutations created now entity request ≡ ok result
unfolding program
compute-request = refl

-- With an empty entity id nothing is read, so nothing can fail.
apply-empty_entity_id :
    apply_entity_label_mutations created now "" (err key_error) (mutation "bot" "r" added ∷ [])
    ≡ ok (record {
      new_entity_labels = record { labels = [] };
      old_entity_labels = record { labels = [] };
      labels_added = [];
      labels_removed = [];
      labels_updated = [];
      dropped_mutations =
          record { mutation = mutation "bot" "r" added; reason = invalid_entity_id } ∷ [];
    })
unfolding program
apply-empty_entity_id = refl

abbrev spam : LabelState
spam = state manually_removed (because "human" (since 10 none))

abbrev bot : LabelState
bot = state added (because "rule" (since 20 (some 30)))

insert_all-created_at_example :
    (out : LabelReason) × (get {K = String} {V = LabelReason} "rule"
        (("rule", since 20 (some 300)) ∷ ("other", since 100 none) ∷ [])
      ≡ some out)
    × (out.created_at ≡ some 20)
unfolding program
insert_all-created_at_example =
    insert_all-created_at (("rule", since 90 (some 300)) ∷ ("other", since 100 none) ∷ [])
      (because "rule" (since 20 (some 30))) "rule" (since 20 (some 30)) refl refl

single-IsValid : (name : String) (n : ℕ) (e : Option ℕ) → IsValid (because name (since n e))
single-IsValid name n e = record { nonempty = λ h. cc; dated = (refl, tt) }

try_apply_desired_state_total_example :
    (out : LabelState × Option MutationDropReason) × (try_apply_desired_state 100
        (desire removed (because "rule" (since 100 none)))
        bot
      ≡ ok out)
    × Applied 100 (desire removed (because "rule" (since 100 none))) bot out
try_apply_desired_state_total_example =
    try_apply_desired_state_total 100 (desire removed (because "rule" (since 100 none))) bot
      (single-IsValid "rule" 100 none) (single-IsValid "rule" 20 (some 30))

drop_conflicts-survivors_example :
    (c : Collected) × (get_mutations_by_label_name_and_drop_conflicts request ≡ ok c)
    × ((l : String) → get l c.by_label_name ≡ survivors l request)
drop_conflicts-survivors_example = drop_conflicts-survivors request

abbrev collected : Collected
collected = record {
  by_label_name =
      ("bot", mutation "bot" "other" added ∷ [])
      ∷ ("spam", mutation "spam" "rule" added ∷ [])
      ∷ ("new", mutation "new" "rule" added ∷ [])
      ∷ [];
  dropped =
      record { mutation = mutation "" "rule" added; reason = invalid_label_name }
      ∷ record { mutation = mutation "bot" "rule" removed; reason = conflicting_mutation }
      ∷ [];
}

abbrev desired : Dict String LabelStateInner
desired =
    ("bot", desire added (because "other" (since 100 none)))
    ∷ ("spam", desire added (because "rule" (since 100 none)))
    ∷ ("new", desire added (because "rule" (since 100 none)))
    ∷ []

drop_conflicts-request : get_mutations_by_label_name_and_drop_conflicts request ≡ ok collected
unfolding program
drop_conflicts-request = refl

desired-request : get_desired_states_by_label_name created collected.by_label_name ≡ ok desired
unfolding program
desired-request = refl

get_desired_states_total_example :
    (ds : Dict String LabelStateInner) × (get_desired_states_by_label_name created
        collected.by_label_name
      ≡ ok ds)
    × All (λ p. IsValid p.1.reasons) ds
    × (keys ds ≡ keys collected.by_label_name)
get_desired_states_total_example =
    get_desired_states_total created request collected drop_conflicts-request

entity-AreValid : AreValid entity.labels
entity-AreValid = (single-IsValid "human" 10 none, (single-IsValid "rule" 20 (some 30), tt))

compute_new_labels_total_example :
    (r : EntityLabelMutationsResult) × (compute_new_labels_from_mutations created now entity request
      ≡ ok r)
    × AreValid r.new_entity_labels.labels
compute_new_labels_total_example =
    compute_new_labels_total created now entity request entity-AreValid

compute_new_labels-next_state_example :
    (next_state 100 (get "bot" desired) (get "bot" entity.labels) ≡ ok (get "bot" after.labels))
    × (entity ≡ entity)
compute_new_labels-next_state_example =
    compute_new_labels-next_state created now entity request result collected desired "bot"
      drop_conflicts-request desired-request compute-request

manual_label_kept_example : get "spam" after.labels ≡ some spam
unfolding program
manual_label_kept_example =
    manual_label_kept created now entity request result "spam" spam refl refl refl refl
      compute-request

-- Texts of instants that serve the round trip: an instant is written in unary, with one mark more.
abbrev iso : ℕ → String
iso zero = "t"
iso (suc n) = S.◌∷◌ nul (iso n)

abbrev size : String → ℕ
size S.[] = 0
size (S.◌∷◌ c s) = suc (size s)

abbrev from_iso : String → Result ℕ
from_iso s = elim (size s) [ zero ↦ err value_error | suc n ↦ ok n ]

size-iso : (n : ℕ) → size (iso n) ≡ suc n
size-iso zero = refl
size-iso (suc n) = ap suc (size-iso n)

iso_lem : (n : ℕ) → (from_iso (iso n) ≡ ok n) × ((iso n == "") ≡ false)
iso_lem n = (
  rw (from_iso, size-iso n) refl,
  elim (Bool-cases (iso n == "")) [
    | inl same ↦
        let e : iso n ≡ "" = (string_eq.beq_iff (iso n) "").0 same in
        absurd (omega (arith, size-iso n, ap size e))
    | inr other ↦ other
  ],
)

labels_deserialize-serialize_example :
    labels_deserialize iso from_iso (labels_serialize iso from_iso entity) ≡ ok entity
labels_deserialize-serialize_example =
    labels_deserialize-serialize iso from_iso iso_lem entity (refl, (refl, tt))
      (((refl, tt), tt), (((refl, tt), tt), tt))

-- A status that there is not is reported as a wrong type.
deserialize_test :
    labels_deserialize iso from_iso
      (bare (("spam", record { status = some 9; reasons = some []; previous_states = none }) ∷ []))
    ≡ err type_error
unfolding labels_deserialize
deserialize_test = refl
