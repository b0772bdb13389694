-- ===== src/Types/Coercing.antt =====
-- What coercing gives.
use trust_and_safety_demo.Base.{
  ◌≡◌, refl, Bool, true, false, ◌||◌, Option, none, some, List, [], ◌∷◌, all, any, if◌then◌else◌,
  ◌⊎◌, inl, inr, Bool-cases, Option-cases, Result, ok, err, type_error, >>=-eq-ok, arith,
}
use trust_and_safety_demo.Types.Defs.{
  Scalar, str, bool, int, float, none_type, scalar_eq, Objects, is_subclass,
}
use trust_and_safety_demo.Types.Checking.{
  Checker, instance_of, union_of, wrapped, list_of, entity_of, instance_check, instance_coerce,
  check, find_working_inner_type, coerce_to_any, or_next, coerce_items, coerce_sequence,
  coerce_checked, coerce,
}

-- What is relied on of Python: the call of a class gives an object of just this class, and a list
-- that is made has the items that it was made of.
pub record IsPython {V : Type 0} (o : Objects V) : Type 0 where
  pub constructed :
      (s : Scalar) (v w : V)
      → o.construct s v ≡ ok w
      → (t : Scalar) → o.is_instance w t ≡ is_subclass s t
  pub made : (vs : List V) → o.list_items (o.make_list vs) ≡ some vs

if_then {ℓ} : {A : Type ℓ} {x : A} (y : A) (b : Bool) → b ≡ true → (if b then x else y) ≡ x
if_then y true h = refl
if_then y false h = cc

if_cases {ℓ} :
    {A : Type ℓ} {x y z : A} (b : Bool)
    → (if b then x else y) ≡ z
    → ((b ≡ true) × (x ≡ z)) ⊎ (y ≡ z)
if_cases true h = inl (refl, h)
if_cases false h = inr h

or_next_ok :
    {V : Type 0} (r next : Result V) (w : V) → or_next r next ≡ ok w → (r ≡ ok w) ⊎ (next ≡ ok w)
unfolding or_next
or_next_ok (ok v) next w h = inl h
or_next_ok (err type_error) next w h = inr h
or_next_ok (err _) next w h = cc

or_true : (b : Bool) → (b || true) ≡ true
or_true b = ground arith

module _ {V : Type 0} ⦃o : Objects V⦄ where
  instance_coerce_same :
      (s : Scalar) (v : V) → instance_check s v ≡ true → instance_coerce s v ≡ ok v
  unfolding instance_coerce
  instance_coerce_same s v h = rw h refl

  found_checks :
      (ss : List Scalar) (v : V) (s : Scalar)
      → find_working_inner_type ss v ≡ some s
      → (instance_check s v ≡ true) × (any (λ t. instance_check t v) ss ≡ true)
  unfolding find_working_inner_type
  found_checks [] v s h = cc
  found_checks (t ∷ ss) v s h = elim (Bool-cases (instance_check t v)) [
    | inl here ↦ let e : t ≡ s = ground (arith, h, here) in (rw (← e) here, rw here refl)
    | inr there ↦ let rest = found_checks ss v s (rw there at h) in (rest.0, rw there rest.1)
  ]

  none_found :
      (ss : List Scalar) (v : V)
      → find_working_inner_type ss v ≡ none
      → any (λ t. instance_check t v) ss ≡ false
  unfolding find_working_inner_type
  none_found [] v h = refl
  none_found (t ∷ ss) v h = elim (Bool-cases (instance_check t v)) [
    | inl here ↦ absurd (ground (arith, h, here))
    | inr there ↦ rw there (none_found ss v (rw there at h))
  ]

  coerce_checked_same : (c : Checker) (v : V) → check c v ≡ true → coerce_checked c v ≡ ok v
  unfolding coerce_checked
  coerce_checked_same c v h = if_then _ _ h

  coerce_checked-check : (c : Checker) (v w : V) → coerce_checked c v ≡ ok w → check c w ≡ true
  unfolding coerce_checked
  coerce_checked-check c v w h = elim (Bool-cases (check c v)) [
    | inl good ↦ let e : v ≡ w = ground (arith, good, h) in rw (← e) good
    | inr bad ↦ absurd (ground (arith, bad, h))
  ]

  -- An object that the checker of an annotation accepts is coerced to itself.
  pub coerce_same : (c : Checker) (v : V) → check c v ≡ true → coerce c v ≡ ok v
  unfolding check coerce
  coerce_same (instance_of s) v h = instance_coerce_same s v h
  coerce_same (union_of ss) v h = elim (Option-cases (find_working_inner_type ss v)) [
    | inl missing ↦ absurd (ground (arith, none_found ss v missing, h))
    | inr (s, found) ↦ rw (found, coerce) (instance_coerce_same s v (found_checks ss v s found).0)
  ]
  coerce_same (wrapped w c) v h = coerce_checked_same (wrapped w c) v h
  coerce_same (list_of c) v h = if_then _ _ h
  coerce_same (entity_of c) v h = coerce_checked_same (entity_of c) v h

  module _ (python : IsPython o) where
    constructed_check : (s : Scalar) (v w : V) → o.construct s v ≡ ok w → instance_check s w ≡ true
    unfolding instance_check is_subclass
    constructed_check str v w h = rw (python.constructed str v w h str) refl
    constructed_check bool v w h = rw (python.constructed bool v w h bool) refl
    constructed_check int v w h =
        rw (python.constructed int v w h bool, python.constructed int v w h int) refl
    constructed_check float v w h =
        rw
          (
            python.constructed float v w h bool,
            python.constructed float v w h int,
            python.constructed float v w h float,
          )
          refl
    constructed_check none_type v w h = rw (python.constructed none_type v w h none_type) refl

    instance_coerce_check :
        (s : Scalar) (v w : V) → instance_coerce s v ≡ ok w → instance_check s w ≡ true
    unfolding instance_coerce
    instance_coerce_check s v w h = elim (Bool-cases (instance_check s v)) [
      | inl good ↦ let e : v ≡ w = ground (arith, good, h) in rw (← e) good
      | inr bad ↦ constructed_check s v w (ground (arith, bad, h))
    ]

    coerce_to_any_check :
        (ss : List Scalar) (v w : V)
        → coerce_to_any ss v ≡ ok w
        → any (λ s. instance_check s w) ss ≡ true
    unfolding coerce_to_any
    coerce_to_any_check [] v w h = cc
    coerce_to_any_check (s ∷ ss) v w h =
        elim (or_next_ok (instance_coerce s v) (coerce_to_any ss v) w h) [
          | inl taken ↦ rw (instance_coerce_check s v w taken) refl
          | inr next ↦ rw (coerce_to_any_check ss v w next) (or_true _)
        ]

    coerce_items-check :
        (c : Checker)
        → ((v w : V) → coerce c v ≡ ok w → check c w ≡ true)
        → (vs ws : List V) → coerce_items (λ v. coerce c v) vs ≡ ok ws
        → all (λ w. check c w) ws ≡ true
    unfolding coerce_items
    coerce_items-check c f [] ws h = let e : [] ≡ ws = cc in rw (← e) refl
    coerce_items-check c f (v ∷ vs) ws h =
        let (w, first, rest) = >>=-eq-ok (coerce c v) _ h in
        let (us, others, e) = >>=-eq-ok (coerce_items (λ v. coerce c v) vs) _ rest in
        let e' : w ∷ us ≡ ws = cc in
        rw (← e', f v w first, coerce_items-check c f vs us others) refl

    coerce_sequence-check :
        (c : Checker)
        → ((v w : V) → coerce c v ≡ ok w → check c w ≡ true)
        → (items : Option (List V)) (w : V) → coerce_sequence (λ v. coerce c v) items ≡ ok w
        → check (list_of c) w ≡ true
    unfolding coerce_sequence check
    coerce_sequence-check c f none w h = cc
    coerce_sequence-check c f (some vs) w h =
        let (ws, run, e) = >>=-eq-ok (coerce_items (λ v. coerce c v) vs) _ h in
        let e' : o.make_list ws ≡ w = cc in
        rw (← e', python.made ws, check) (coerce_items-check c f vs ws run)

    coerce_list_check :
        (c : Checker)
        → ((v w : V) → coerce c v ≡ ok w → check c w ≡ true)
        → (v w : V) → coerce (list_of c) v ≡ ok w
        → check (list_of c) w ≡ true
    unfolding coerce
    coerce_list_check c f v w h = elim (if_cases (check (list_of c) v) h) [
      | inl (good, e) ↦ let e' : v ≡ w = cc in rw (← e') good
      | inr run ↦ coerce_sequence-check c f (o.sequence_items v) w run
    ]

    -- When coercing an object gives an object, the checker of the annotation accepts it.
    pub coerce-check : (c : Checker) (v w : V) → coerce c v ≡ ok w → check c w ≡ true
    unfolding coerce check
    coerce-check (instance_of s) v w h = instance_coerce_check s v w h
    coerce-check (union_of ss) v w h = elim (Option-cases (find_working_inner_type ss v)) [
      | inl missing ↦ coerce_to_any_check ss v w (rw (missing, coerce) at h)
      | inr (s, found) ↦
          let good = found_checks ss v s found in
          let run : instance_coerce s v ≡ ok w = rw (found, coerce) at h in
          let e : v ≡ w = cc (instance_coerce_same s v good.0, run) in rw (← e) good.1
    ]
    coerce-check (wrapped wrapper c) v w h = coerce_checked-check (wrapped wrapper c) v w h
    coerce-check (list_of c) v w h = coerce_list_check c (λ u x. coerce-check c u x) v w h
    coerce-check (entity_of c) v w h = coerce_checked-check (entity_of c) v w h
