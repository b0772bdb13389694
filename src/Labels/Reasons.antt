-- ===== src/Labels/Reasons.antt =====
-- `LabelReason` and `LabelReasons` of osprey_shared/labels.py. An instant is the number of
-- microseconds since `datetime.min`; `__post_init__` makes every stored instant one of UTC, so
-- instants compare as numbers. The instants are those that still have five seconds before
-- `datetime.max`.
use trust_and_safety_demo.Base.{
  ℕ, ◌+◌, String, Bool, true, false, Option, none, some, if◌then◌else◌, ltb, Result, ok, err,
  assertion_error, string_eq,
}
use trust_and_safety_demo.Base.Dict.{Dict, get, put}
use trust_and_safety_demo.Base.{List, [], ◌∷◌, ◌>>=◌}

pub record LabelReason : Type 0 where
  pub pending : Bool
  pub description : String
  pub features : Dict String String
  pub created_at : Option ℕ
  pub expires_at : Option ℕ

abbrev pub LabelReasons : Type 0
LabelReasons = Dict String LabelReason

-- `timedelta(seconds=5)`
abbrev pub grace : ℕ
grace = 5000000

-- `reason.is_expired()`, the clock showing `now`
unfoldable pub reason_is_expired : ℕ → LabelReason → Bool
reason_is_expired now r = elim r.expires_at [ none ↦ false | some t ↦ ltb (t + grace) now ]

-- The part of `insert_or_update` behind the lookup: what the entry `current` becomes, or `none`
-- where the new reason is dropped as older.
unfoldable pub merge : (current reason : LabelReason) → Result (Option LabelReason)
merge current reason = elim current.created_at [
  | none ↦ err assertion_error
  | some c ↦ elim reason.created_at [
    | none ↦ err assertion_error
    | some r ↦
        if ltb (r + grace) c then ok none else ok (some (record reason { created_at = some c }))
  ]
]

-- `reasons.insert_or_update(reason_name, reason)`: the dict afterwards, and the result.
unfoldable pub insert_or_update : String → LabelReason → LabelReasons → Result (LabelReasons × Bool)
unfolding merge
insert_or_update reason_name reason reasons = elim (get reason_name reasons) [
  | none ↦ ok (put reason_name reason reasons, true)
  | some current ↦ elim (merge current reason) [
    | err e ↦ err e
    | ok none ↦ ok (reasons, false)
    | ok (some merged) ↦ ok (put reason_name merged reasons, true)
  ]
]

-- `for reason_name, reason in new.items(): reasons.insert_or_update(reason_name, reason)`
unfoldable pub insert_all : List (String × LabelReason) → LabelReasons → Result LabelReasons
insert_all [] reasons = ok reasons
insert_all ((reason_name, reason) ∷ new) reasons = do
  (reasons', _) ← insert_or_update reason_name reason reasons
  insert_all new reasons'
