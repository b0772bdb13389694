-- ===== src/Labels/Expiry.antt =====
-- When a label state is expired.
use Prim.Native.Nat.{max}
use trust_and_safety_demo.Base.{
  ℕ, ◌+◌, ◌≡◌, ◌≢◌, Bool, true, false, ◌&&◌, Option, none, some, [], ◌∷◌, arith, ltb, ok, all, refl,
  inl, inr, Option-cases, Bool-cases,
}
use trust_and_safety_demo.Labels.Reasons.{LabelReasons, grace, reason_is_expired}
use trust_and_safety_demo.Labels.State.{LabelState, latest, expires_at, is_expired}

-- The test of `is_expired` on the value of `expires_at`.
abbrev past : ℕ → Option ℕ → Bool
past now e = elim e [ none ↦ false | some t ↦ ltb (t + grace) now ]

abbrev all_expired : ℕ → LabelReasons → Bool
all_expired now reasons = all (λ p. reason_is_expired now p.1) reasons

past-latest :
    (now acc : ℕ) (reasons : LabelReasons)
    → past now (latest acc reasons) ≡ (ltb (acc + grace) now && all_expired now reasons)
unfolding latest reason_is_expired
past-latest now acc [] = ground arith
past-latest now acc ((k, r) ∷ rest) = elim (Option-cases r.expires_at) [
  | inl e ↦ ground arith
  | inr (t, e) ↦ ground (arith, past-latest now (max t acc) rest)
]

-- An expired reason is later than `datetime.min`, the value that the loop starts from.
late :
    (now : ℕ) (reasons : LabelReasons)
    → reasons ≢ []
    → all_expired now reasons ≡ true
    → ltb (0 + grace) now ≡ true
unfolding reason_is_expired
late now [] h e = absurd (h refl)
late now ((k, r) ∷ rest) h e = elim (Option-cases r.expires_at) [
  | inl n ↦ ground arith
  | inr (t, n) ↦ ground arith
]

past-all :
    (now : ℕ) (reasons : LabelReasons)
    → reasons ≢ []
    → past now (latest 0 reasons) ≡ all_expired now reasons
past-all now reasons h = elim (Bool-cases (all_expired now reasons)) [
  | inl e ↦ rw (past-latest, late now reasons h e)
  | inr e ↦ rw (past-latest, e) (ground arith)
]

pub expires_at-latest : (s : LabelState) → s.reasons ≢ [] → expires_at s ≡ ok (latest 0 s.reasons)
unfolding expires_at
expires_at-latest s h = ground arith

-- A label state that has reasons is expired exactly when each one of its reasons is expired, as
-- the reason itself tells; and telling so does not raise.
pub is_expired-all :
    (now : ℕ) (s : LabelState)
    → s.reasons ≢ []
    → is_expired now s ≡ ok (all (λ p. reason_is_expired now p.1) s.reasons)
unfolding is_expired
is_expired-all now s h = ground (arith, expires_at-latest s h, past-all now s.reasons h)
