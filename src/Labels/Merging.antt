-- ===== src/Labels/Merging.antt =====
-- What `insert_or_update` does to the reasons of a label.
use trust_and_safety_demo.Base.{
  ◌+◌, ◌≡◌, ◌≢◌, String, Bool, true, false, Option, none, some, List, [], ◌∷◌, arith, ltb, ok,
  string_eq, is_some, ◌==◌, ◌⊎◌, inl, inr, Option-cases, refl, Result-cases, subst, Bool-cases, All,
  >>=-eq-ok, ◌∙◌,
}
use text.Mathlib.TextEquality.{eq_iff}
use trust_and_safety_demo.Base.Dict.{get, put, get-put, get-ne-nil, All-get, All-put, put-ne-nil}
use trust_and_safety_demo.Labels.Reasons.{
  LabelReason, LabelReasons, grace, merge, insert_or_update, insert_all,
}

-- The invariant that the code asserts: every reason has its time of creation.
abbrev pub IsDated : LabelReason → Type 0
IsDated r = is_some r.created_at ≡ true

abbrev pub AreDated : LabelReasons → Type 0
AreDated reasons = All (λ p. IsDated p.1) reasons

merge-IsDated :
    (current reason : LabelReason)
    → IsDated current
    → IsDated reason
    → (o : Option LabelReason) × (merge current reason ≡ ok o)
      × ((m : LabelReason) → o ≡ some m → IsDated m)
unfolding merge
merge-IsDated current reason hc hr = elim (Option-cases current.created_at) [
  | inl e ↦ cc
  | inr (c, e) ↦ elim (Option-cases reason.created_at) [
    | inl e' ↦ cc
    | inr (r, e') ↦ elim (Bool-cases (ltb (r + grace) c)) [
      | inl older ↦ (none, rw (e, e', older), λ m h. cc)
      | inr newer ↦
          (some (record reason { created_at = some c }), rw (e, e', newer), λ m h. ground arith)
    ]
  ]
]

pub insert_or_update_dated :
    (name : String) (reason : LabelReason) (reasons : LabelReasons)
    → IsDated reason
    → AreDated reasons
    → (out : LabelReasons × Bool) × (insert_or_update name reason reasons ≡ ok out)
      × AreDated out.0
      × (out.0 ≢ [])
unfolding insert_or_update
insert_or_update_dated name reason reasons hr hd = elim (Option-cases (get name reasons)) [
  | inl e ↦ (
    (put name reason reasons, true),
    ground arith,
    All-put IsDated name reason reasons hr hd,
    put-ne-nil name reason reasons,
  )
  | inr (current, e) ↦
      let (o, me, mh) = merge-IsDated current reason (All-get IsDated name reasons hd e) hr in
      elim (Option-cases o) [
        | inl e' ↦ ((reasons, false), ground arith, hd, get-ne-nil name reasons e)
        | inr (m, e') ↦ (
          (put name m reasons, true),
          ground arith,
          All-put IsDated name m reasons (mh m e') hd,
          put-ne-nil name m reasons,
        )
      ]
]

-- With dated reasons on both sides the loop ends, and leaves dated reasons; there are some if
-- there were some before or one is new.
pub insert_all_dated :
    (new : List (String × LabelReason)) (reasons : LabelReasons)
    → AreDated new
    → AreDated reasons
    → (out : LabelReasons) × (insert_all new reasons ≡ ok out)
      × AreDated out
      × ((new ≢ []) ⊎ (reasons ≢ []) → out ≢ [])
unfolding insert_all
insert_all_dated [] reasons hn hd =
    (reasons, refl, hd, λ h. elim h [ inl n ↦ absurd (n refl) | inr n ↦ n ])
insert_all_dated ((name, reason) ∷ new) reasons hn hd =
    let (out, e, dated, some_) = insert_or_update_dated name reason reasons hn.0 hd in
    let (last, e', dated', some') = insert_all_dated new out.0 hn.1 dated in
    (last, rw e e', dated', λ _. some' (inr some_))

merge-created_at :
    (current reason m : LabelReason)
    → merge current reason ≡ ok (some m)
    → m.created_at ≡ current.created_at
unfolding merge
merge-created_at current reason m h = ground arith

-- Where the name is new the reason is stored as it is; else `merge` says what becomes of the entry.
data Outcome (name : String) (reason : LabelReason) (reasons : LabelReasons)
    : LabelReasons × Bool → Type 0 where
  fresh : get name reasons ≡ none → Outcome name reason reasons (put name reason reasons, true)
  dropped :
      (c : LabelReason)
      → get name reasons ≡ some c
      → merge c reason ≡ ok none
      → Outcome name reason reasons (reasons, false)
  merged :
      (c m : LabelReason)
      → get name reasons ≡ some c
      → merge c reason ≡ ok (some m)
      → Outcome name reason reasons (put name m reasons, true)

insert_or_update-Outcome :
    (name : String) (reason : LabelReason) (reasons : LabelReasons) {out : LabelReasons × Bool}
    → insert_or_update name reason reasons ≡ ok out
    → Outcome name reason reasons out
unfolding insert_or_update
insert_or_update-Outcome name reason reasons {out} h = elim (Option-cases (get name reasons)) [
  | inl e ↦ subst (Outcome name reason reasons) (ground arith) (fresh e)
  | inr (c, e) ↦ elim (Result-cases (merge c reason)) [
    | inl (o, e') ↦ elim (Option-cases o) [
      | inl n ↦ subst (Outcome name reason reasons) (ground arith) (dropped c e (cc))
      | inr (m, n) ↦ subst (Outcome name reason reasons) (ground arith) (merged c m e (cc))
    ]
    | inr (x, e') ↦ absurd (ground arith)
  ]
]

Outcome-created_at :
    {name : String} {reason : LabelReason} {reasons : LabelReasons} {out : LabelReasons × Bool}
    (j : String) (current : LabelReason)
    → Outcome name reason reasons out
    → get j reasons ≡ some current
    → (after : LabelReason) × (get j out.0 ≡ some after) × (after.created_at ≡ current.created_at)
Outcome-created_at {name} {reason} {reasons} j current (fresh e) g =
    (current, rw get-put (ground (arith, eq_iff name j)), refl)
Outcome-created_at {name} {reason} {reasons} j current (dropped c e d) g = (current, g, refl)
Outcome-created_at {name} {reason} {reasons} j current (merged c m e d) g =
    elim (Bool-cases (name == j)) [
      | inl same ↦
          (m, rw (get-put, same), ground (arith, merge-created_at c reason m d, eq_iff name j))
      | inr other ↦ (current, rw (get-put, other) g, refl)
    ]

-- Merging reasons into a label's reasons keeps every reason that was there, under its name and
-- with the time of creation that it had, whatever the new reasons are, unless the code raises.
pub insert_all-created_at :
    (new : List (String × LabelReason)) (reasons : LabelReasons) {out : LabelReasons} (j : String)
    (current : LabelReason)
    → insert_all new reasons ≡ ok out
    → get j reasons ≡ some current
    → (after : LabelReason) × (get j out ≡ some after) × (after.created_at ≡ current.created_at)
unfolding insert_all
insert_all-created_at [] reasons j current h g = (current, ground arith, refl)
insert_all-created_at ((name, reason) ∷ new) reasons j current h g =
    let (out, e, h') =
      >>=-eq-ok (insert_or_update name reason reasons) (λ o. insert_all new o.0) h in
    let (after, g', c) =
      Outcome-created_at j current (insert_or_update-Outcome name reason reasons e) g in
    let (last, g'', c') = insert_all-created_at new out.0 j after h' g' in (last, g'', c' ∙ c)
