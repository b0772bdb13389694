-- ===== src/Execution/Rulings.antt =====
-- What `WhenRules` does with its effects.
use trust_and_safety_demo.Base.{
  ℕ, zero, suc, ◌+◌, ◌≡◌, ◌⊎◌, inl, inr, refl, sym, ◌∙◌, arith, some, List, [], ◌∷◌, ◌++◌, map,
  filter, count, nat_eq, ◌==◌, if◌then◌else◌, Bool-cases,
}
use mathlib.Core.List.{append-nil, append_assoc}
use trust_and_safety_demo.Base.Dict.{Dict, get-put}
use trust_and_safety_demo.Execution.Values.{returned}
use trust_and_safety_demo.Execution.Rules.{
  RuleT, Effects, rules_of, add_rules, add_outcomes, execute_when_rules,
}

-- The rules, one copy after the other.
unfoldable pub copies : ℕ → List RuleT → List RuleT
copies zero rules = []
copies (suc n) rules = rules ++ copies n rules

rules_of-add_rules :
    (rules : List RuleT) (effect n : ℕ) (d : Dict ℕ (List RuleT))
    → rules_of n (add_rules rules effect d)
      ≡ rules_of n d ++ copies (if effect == n then 1 else 0) rules
unfolding rules_of add_rules copies
rules_of-add_rules rules effect n d = elim (Bool-cases (effect == n)) [
  | inl same ↦
      let e : effect ≡ n = ground arith in rw (rules_of, get-put, same, e, append-nil rules) refl
  | inr other ↦ rw (rules_of, get-put, other, append-nil (rules_of n d)) refl
]

copies-add :
    (a b : ℕ) (rules : List RuleT) → copies (a + b) rules ≡ copies a rules ++ copies b rules
unfolding copies
copies-add zero b rules = let e : zero + b ≡ b = omega arith in rw e refl
copies-add (suc a) b rules =
    let e : suc a + b ≡ suc (a + b) = omega arith in
    rw (e, copies-add a b rules) (sym (append_assoc rules (copies a rules) (copies b rules)))

add_outcomes_lem :
    (rules : List RuleT) (outcomes : List ℕ) (e : Effects)
    → (e' : Effects) × (add_outcomes rules (map some outcomes) e ≡ (e', returned tt))
      × (e'.added ≡ e.added ++ outcomes)
      × ((n : ℕ) → rules_of n e'.rules ≡ rules_of n e.rules ++ copies (count n outcomes) rules)
unfolding add_outcomes
add_outcomes_lem rules [] e =
    (e, refl, sym (append-nil e.added), λ n. unfold copies in sym (append-nil (rules_of n e.rules)))
add_outcomes_lem rules (o ∷ outcomes) e =
    let next : Effects = record { rules = add_rules rules o e.rules; added = e.added ++ o ∷ [] } in
    let (e', p, q, r) = add_outcomes_lem rules outcomes next in
    (
      e',
      p,
      q ∙ append_assoc e.added (o ∷ []) outcomes,
      λ n.
          r n
          ∙ rw
              (
                rules_of-add_rules rules o n e.rules,
                copies-add (if o == n then 1 else 0) (count n outcomes) rules,
              )
              (append_assoc (rules_of n e.rules) (copies (if o == n then 1 else 0) rules)
                (copies (count n outcomes) rules)),
    )

List-cases : (rs : List RuleT) → (rs ≡ []) ⊎ ((r : RuleT) × (rest : List RuleT) × (rs ≡ r ∷ rest))
List-cases [] = inl refl
List-cases (r ∷ rest) = inr (r, rest, refl)

copies-nil : (n : ℕ) → copies n [] ≡ []
unfolding copies
copies-nil zero = refl
copies-nil (suc n) = copies-nil n

-- The outcomes that a run adds: none without a passing rule.
unfoldable pub outcomes_of : List RuleT → List ℕ → List ℕ
outcomes_of [] outcomes = []
outcomes_of (rule ∷ rules) outcomes = outcomes

-- `WhenRules` does not raise on effects. It adds all its outcomes in their order if a rule passed,
-- and nothing otherwise; and each effect gets the passing rules at the end of its rules, as often as
-- it stands among the outcomes.
pub execute_when_rules_lem :
    (rules : List RuleT) (outcomes : List ℕ) (e : Effects)
    → (e' : Effects) × (execute_when_rules rules (map some outcomes) e ≡ (e', returned tt))
      × (e'.added ≡ e.added ++ outcomes_of (filter (λ r. r.value) rules) outcomes)
      × ((n : ℕ)
          → rules_of n e'.rules
            ≡ rules_of n e.rules ++ copies (count n outcomes) (filter (λ r. r.value) rules))
unfolding execute_when_rules outcomes_of
execute_when_rules_lem rules outcomes e = elim (List-cases (filter (λ r. r.value) rules)) [
  | inl no_rule ↦ (
    e,
    rw (execute_when_rules, no_rule) refl,
    rw (no_rule, append-nil e.added) refl,
    λ n. rw (no_rule, copies-nil (count n outcomes)) (sym (append-nil (rules_of n e.rules))),
  )
  | inr (r, rs, passed) ↦
      let (e', p, q, f) = add_outcomes_lem (r ∷ rs) outcomes e in
      (e', rw (execute_when_rules, passed) p, rw passed q, λ n. rw passed (f n))
]
