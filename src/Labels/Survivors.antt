-- ===== src/Labels/Survivors.antt =====
-- Which mutations survive the conflicts of a request, said without the loop: of the mutations of
-- a label, those with the greatest weight, in their order.
use Prim.Native.Nat.{max}
use trust_and_safety_demo.Base.{
  ℕ, ◌<◌, ◌≡◌, ◌≢◌, String, Bool, true, false, ◌&&◌, ◌||◌, not, Option, none, some, List, [], ◌∷◌,
  ◌++◌, arith, if◌then◌else◌, ◌==◌, nat_eq, string_eq, filter, filter-append, any, refl, Bool-cases,
  inl, inr,
}
use trust_and_safety_demo.Labels.Status.{value}
use trust_and_safety_demo.Labels.Mutations.{EntityLabelMutation}

module _ (l : String) where
  -- The greatest weight among the mutations of the label.
  unfoldable pub top : List EntityLabelMutation → ℕ
  top [] = 0
  top (m ∷ ms) = if m.label_name == l then max (value m.status) (top ms) else top ms

  unfoldable pub of_weight : ℕ → List EntityLabelMutation → List EntityLabelMutation
  of_weight v ms = filter (λ m. m.label_name == l && value m.status == v) ms

  unfoldable pub named : List EntityLabelMutation → Bool
  named ms = any (λ m. m.label_name == l) ms

  -- What the loop should have stored under the label; nothing is stored under an empty name.
  unfoldable pub survivors : List EntityLabelMutation → Option (List EntityLabelMutation)
  survivors ms = if named ms && not (l == "") then some (of_weight (top ms) ms) else none

  pub top-snoc :
      (ms : List EntityLabelMutation) (m : EntityLabelMutation)
      → top (ms ++ m ∷ []) ≡ (if m.label_name == l then max (top ms) (value m.status) else top ms)
  unfolding top
  top-snoc [] m = elim (Bool-cases (m.label_name == l)) [
    | inl e ↦ rw e (omega arith)
    | inr e ↦ rw e refl
  ]
  top-snoc (n ∷ ms) m = elim (Bool-cases (n.label_name == l)) [
    | inl e ↦ elim (Bool-cases (m.label_name == l)) [
      | inl e' ↦ rw (e, top-snoc ms m, e') (omega arith)
      | inr e' ↦ rw (e, top-snoc ms m, e') refl
    ]
    | inr e ↦ rw (e, top-snoc ms m) refl
  ]

  pub named-snoc :
      (ms : List EntityLabelMutation) (m : EntityLabelMutation)
      → named (ms ++ m ∷ []) ≡ (named ms || m.label_name == l)
  unfolding named
  named-snoc [] m = ground arith
  named-snoc (n ∷ ms) m = ground (arith, named-snoc ms m)

  pub of_weight-snoc :
      (v : ℕ) (ms : List EntityLabelMutation) (m : EntityLabelMutation)
      → of_weight v (ms ++ m ∷ [])
        ≡ of_weight v ms ++ (if m.label_name == l && value m.status == v then m ∷ [] else [])
  unfolding of_weight
  of_weight-snoc v ms m = filter-append _ ms (m ∷ [])

  pub of_weight-above : (v : ℕ) (ms : List EntityLabelMutation) → top ms < v → of_weight v ms ≡ []
  unfolding top of_weight named
  of_weight-above v [] h = refl
  of_weight-above v (m ∷ ms) h = ground (arith, of_weight-above v ms)

  pub of_weight-unnamed :
      (v : ℕ) (ms : List EntityLabelMutation) → named ms ≡ false → of_weight v ms ≡ []
  unfolding top of_weight named
  of_weight-unnamed v [] h = refl
  of_weight-unnamed v (m ∷ ms) h = ground (arith, of_weight-unnamed v ms)

  pub top-unnamed : (ms : List EntityLabelMutation) → named ms ≡ false → top ms ≡ 0
  unfolding top of_weight named
  top-unnamed [] h = refl
  top-unnamed (m ∷ ms) h = ground (arith, top-unnamed ms)

  pub value_of_head :
      (v : ℕ) (ms : List EntityLabelMutation) (n : EntityLabelMutation)
      (ns : List EntityLabelMutation)
      → of_weight v ms ≡ n ∷ ns
      → value n.status ≡ v
  unfolding top of_weight named
  value_of_head v [] n ns h = cc
  value_of_head v (m ∷ ms) n ns h = ground (arith, value_of_head v ms n ns)

  pub of_weight-top-ne-nil :
      (ms : List EntityLabelMutation) → named ms ≡ true → of_weight (top ms) ms ≢ []
  unfolding top of_weight named
  of_weight-top-ne-nil [] h e = cc
  of_weight-top-ne-nil (m ∷ ms) h e = ground (arith, of_weight-top-ne-nil ms, top-unnamed ms)
