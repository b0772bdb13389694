-- ===== src/Labels/RoundTrip.antt =====
-- What `serialize` writes of an entity's labels, `deserialize` reads.
use trust_and_safety_demo.Base.{
  ℕ, ◌≡◌, refl, ap, String, false, Option, none, some, List, [], ◌∷◌, ◌++◌, map, ◌==◌, string_eq,
  All, IsDistinct, elem, Result, ok,
}
use mathlib.Core.List.{append-nil, append_assoc}
use trust_and_safety_demo.Base.Dict.{Dict, put-new, still_new, all_new, keys}
use trust_and_safety_demo.Labels.Status.{
  LabelStatus, removed, added, manually_removed, manually_added, value,
}
use trust_and_safety_demo.Labels.Reasons.{LabelReason, LabelReasons}
use trust_and_safety_demo.Labels.State.{LabelStateInner, LabelState}
use trust_and_safety_demo.Labels.Mutations.{EntityLabels}
use trust_and_safety_demo.Labels.Serial.{
  status_of, get_or, item, or_type_error, read_items, read_list, write_items, write_instant,
  read_instant, reason_serialize, reason_deserialize, reasons_serialize, reasons_deserialize,
  state_inner_serialize, state_inner_deserialize, state_serialize, state_deserialize,
  labels_serialize, labels_deserialize,
}

status_round : (s : LabelStatus) → status_of (value s) ≡ ok s
unfolding status_of value
status_round removed = refl
status_round added = refl
status_round manually_removed = refl
status_round manually_added = refl

read_items-write {ℓ κ} :
    {A : Type ℓ} {B : Type κ} (f : A → B) (g : B → Result A) (os d : Dict String A)
    → All (λ o. g (f o.1) ≡ ok o.1) os
    → All (λ o. elem o.0 (keys d) ≡ false) os
    → IsDistinct (keys os)
    → read_items g (write_items f os) d ≡ ok (d ++ os)
unfolding read_items write_items
read_items-write f g [] d r new u = rw (append-nil d) refl
read_items-write f g ((k, a) ∷ os) d r new u =
    rw
      (
        read_items,
        r.0,
        put-new k a d new.0,
        read_items-write f g os (d ++ (k, a) ∷ []) r.1 (still_new k a d os u.0 new.1) u.1,
      )
      (ap ok (append_assoc d ((k, a) ∷ []) os))

read_list-map {ℓ κ} :
    {A : Type ℓ} {B : Type κ} (f : A → B) (g : B → Result A) (as' : List A)
    → All (λ a. g (f a) ≡ ok a) as'
    → read_list g (map f as') ≡ ok as'
unfolding read_list
read_list-map f g [] r = refl
read_list-map f g (a ∷ as') r = rw (read_list, r.0, read_list-map f g as' r.1) refl

-- The dicts of the labels of an entity have distinct keys.
abbrev pub AreKeyed : LabelState → Type 0
AreKeyed s = IsDistinct (keys s.reasons) × All (λ p. IsDistinct (keys p.reasons)) s.previous_states

module _ (isoformat : ℕ → String) (fromisoformat : String → Result ℕ)
    (iso : (t : ℕ) → (fromisoformat (isoformat t) ≡ ok t) × ((isoformat t == "") ≡ false)) where
  instant_round :
      (t : Option ℕ)
      → read_instant isoformat fromisoformat (write_instant isoformat fromisoformat t) ≡ ok t
  unfolding read_instant write_instant
  instant_round none = refl
  instant_round (some t) = rw (read_instant, (iso t).1, (iso t).0) refl

  reason_round :
      (r : LabelReason)
      → reason_deserialize isoformat fromisoformat (reason_serialize isoformat fromisoformat r)
        ≡ ok r
  unfolding reason_deserialize reason_serialize get_or
  reason_round r =
      rw (reason_deserialize, instant_round r.created_at, instant_round r.expires_at) refl

  all_rounds :
      (rs : LabelReasons)
      → All
          (λ o.
            or_type_error (
              reason_deserialize isoformat fromisoformat
                (reason_serialize isoformat fromisoformat o.1))
            ≡ ok o.1)
          rs
  unfolding or_type_error
  all_rounds [] = tt
  all_rounds ((k, r) ∷ rs) = (rw (reason_round r) refl, all_rounds rs)

  reasons_round :
      (rs : LabelReasons)
      → IsDistinct (keys rs)
      → reasons_deserialize isoformat fromisoformat (reasons_serialize isoformat fromisoformat rs)
        ≡ ok rs
  unfolding reasons_deserialize reasons_serialize
  reasons_round rs u =
      read_items-write (reason_serialize isoformat fromisoformat)
        (λ r. or_type_error (reason_deserialize isoformat fromisoformat r)) rs [] (all_rounds rs)
        (all_new rs) u

  inner_round :
      (s : LabelStateInner)
      → IsDistinct (keys s.reasons)
      → state_inner_deserialize isoformat fromisoformat
          (state_inner_serialize isoformat fromisoformat s)
        ≡ ok s
  unfolding state_inner_deserialize state_inner_serialize or_type_error item
  inner_round s u =
      rw (state_inner_deserialize, status_round s.status, reasons_round s.reasons u) refl

  inners_round :
      (ps : List LabelStateInner)
      → All (λ p. IsDistinct (keys p.reasons)) ps
      → All
          (λ p.
            state_inner_deserialize isoformat fromisoformat
              (state_inner_serialize isoformat fromisoformat p)
            ≡ ok p)
          ps
  inners_round [] h = tt
  inners_round (p ∷ ps) h = (inner_round p h.0, inners_round ps h.1)

  state_round :
      (s : LabelState)
      → AreKeyed s
      → state_deserialize isoformat fromisoformat (state_serialize isoformat fromisoformat s) ≡ ok s
  unfolding state_deserialize state_serialize or_type_error item get_or
  state_round s u =
      rw
        (
          state_deserialize,
          status_round s.status,
          reasons_round s.reasons u.0,
          read_list-map (state_inner_serialize isoformat fromisoformat)
              (state_inner_deserialize isoformat fromisoformat) s.previous_states
              (inners_round s.previous_states u.1),
        )
        refl

  states_round :
      (d : Dict String LabelState)
      → All (λ o. AreKeyed o.1) d
      → All
          (λ o.
            state_deserialize isoformat fromisoformat (state_serialize isoformat fromisoformat o.1)
            ≡ ok o.1)
          d
  states_round [] h = tt
  states_round ((k, s) ∷ d) h = (state_round s h.0, states_round d h.1)

  -- The labels of an entity are read again as they were written, if each dict in them has distinct
  -- keys, and `fromisoformat` reads what `isoformat` writes, which is never empty.
  pub labels_deserialize-serialize :
      (l : EntityLabels)
      → IsDistinct (keys l.labels)
      → All (λ o. AreKeyed o.1) l.labels
      → labels_deserialize isoformat fromisoformat (labels_serialize isoformat fromisoformat l)
        ≡ ok l
  unfolding labels_deserialize labels_serialize or_type_error
  labels_deserialize-serialize l u h =
      rw
        (
          labels_deserialize,
          read_items-write (state_serialize isoformat fromisoformat)
              (state_deserialize isoformat fromisoformat) l.labels [] (states_round l.labels h)
              (all_new l.labels) u,
        )
        refl
