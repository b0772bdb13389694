-- ===== src/Types/Sound.antt =====
-- Compatible types have compatible objects: the answers of `is_compatible_type` about the types of
-- annotations.
use trust_and_safety_demo.Base.{
  ◌≡◌, refl, sym, ◌∙◌, Bool, true, false, ◌||◌, Option, none, some, List, [], ◌∷◌, all, any,
  if◌then◌else◌, inl, inr, Bool-cases, arith,
}
use trust_and_safety_demo.Types.Defs.{
  Scalar, scalar_eq, Class, Typing, generic, Origin, list_origin, entity_origin, Objects, dedupe,
  same_origin,
}
use trust_and_safety_demo.Types.Checking.{
  Checker, instance_of, union_of, wrapped, list_of, entity_of, classes, to_typing_type,
  instance_check, check,
}
use trust_and_safety_demo.Types.Evaluating.{
  answer, is_compatible, compare_generic, compare_plain, has_parameters,
}
use trust_and_safety_demo.Types.Flat.{
  is_subtype, classes_have_no_parameters, is_compatible-classes, any-dedupe, subtype_sound,
}

-- The types of annotations have no type variables.
to_typing_type_closed : (c : Checker) → has_parameters (to_typing_type c) ≡ false
unfolding has_parameters to_typing_type
to_typing_type_closed (instance_of s) = refl
to_typing_type_closed (union_of ss) = classes_have_no_parameters (dedupe ss)
to_typing_type_closed (wrapped w c) = to_typing_type_closed c
to_typing_type_closed (list_of c) = to_typing_type_closed c
to_typing_type_closed (entity_of c) = to_typing_type_closed c

or_false : {b : Bool} → (b || false) ≡ true → b ≡ true
or_false h = ground arith

all-check {ℓ} :
    {A : Type ℓ} (p q : A → Bool)
    → ((a : A) → p a ≡ true → q a ≡ true)
    → (xs : List A) → all p xs ≡ true
    → all q xs ≡ true
all-check p q f [] h = refl
all-check p q f (x ∷ xs) h = ground (arith, f x, all-check p q f xs)

module _ {V : Type 0} (p q : V → Bool) (f : (v : V) → p v ≡ true → q v ≡ true) where
  every_item :
      (items : Option (List V))
      → elim items as (λ _. Bool) [ none ↦ false | some vs ↦ all p vs ] ≡ true
      → elim items as (λ _. Bool) [ none ↦ false | some vs ↦ all q vs ] ≡ true
  every_item none h = h
  every_item (some vs) h = all-check p q f vs h

  the_id :
      (id : Option V)
      → elim id as (λ _. Bool) [ none ↦ false | some v ↦ p v ] ≡ true
      → elim id as (λ _. Bool) [ none ↦ false | some v ↦ q v ] ≡ true
  the_id none h = h
  the_id (some v) h = f v h

module _ {V : Type 0} ⦃o : Objects V⦄ where
  any_sound :
      (s : Scalar) (ts : List Scalar) (v : V)
      → any (λ t. is_subtype s t) ts ≡ true
      → instance_check s v ≡ true
      → any (λ t. instance_check t v) ts ≡ true
  any_sound s [] v h c = cc
  any_sound s (t ∷ ts) v h c = elim (Bool-cases (is_subtype s t)) [
    | inl here ↦ rw (subtype_sound s t v here c) refl
    | inr there ↦ let rest = any_sound s ts v (rw there at h) c in ground (arith, rest)
  ]

  all_sound :
      (ss ts : List Scalar) (v : V)
      → all (λ s. any (λ t. is_subtype s t) ts) ss ≡ true
      → any (λ s. instance_check s v) ss ≡ true
      → any (λ t. instance_check t v) ts ≡ true
  all_sound [] ts v h c = cc
  all_sound (s ∷ ss) ts v h c = elim (Bool-cases (instance_check s v)) [
    | inl here ↦ any_sound s ts v (ground arith) here
    | inr there ↦ all_sound ss ts v (ground arith) (rw there at c)
  ]

module _ (user : Class → Class → Bool) where
  class_generic :
      (ss : List Scalar) (p : Origin) (a : Typing)
      → is_compatible user (classes ss) (generic p a) ≡ answer false
  unfolding is_compatible compare_plain classes
  class_generic [] p a = refl
  class_generic (s ∷ []) p a = refl
  class_generic (s ∷ t ∷ ss) p a = refl

  generic_class :
      (p : Origin) (t : Typing) (ss : List Scalar)
      → is_compatible user (generic p t) (classes ss) ≡ answer false
  unfolding is_compatible compare_generic classes
  generic_class p t [] = refl
  generic_class p t (s ∷ []) = refl
  generic_class p t (s ∷ r ∷ ss) = refl

  generic_generic :
      (p q : Origin) (t a : Typing)
      → has_parameters t ≡ false
      → has_parameters a ≡ false
      → is_compatible user (generic p t) (generic q a)
        ≡ (if same_origin p q then is_compatible user t a else answer false)
  unfolding is_compatible compare_generic
  generic_generic p q t a h k = ground (arith, h, k)

module _ (V : Type 0) ⦃o : Objects V⦄ (user : Class → Class → Bool) where
  -- The code answers, and when it answers yes then what `c` accepts is accepted by `d`.
  abbrev pub AnswersSoundly : Checker → Checker → Type 0
  AnswersSoundly c d =
      (b : Bool) × (is_compatible user (to_typing_type c) (to_typing_type d) ≡ answer b)
      × (b ≡ true → (v : V) → check c v ≡ true → check d v ≡ true)

  flat_sound :
      (ss ts : List Scalar)
      → (b : Bool) × (is_compatible user (classes (dedupe ss)) (classes (dedupe ts)) ≡ answer b)
        × (b ≡ true
            → (v : V) → any (λ s. instance_check s v) ss ≡ true
            → any (λ t. instance_check t v) ts ≡ true)
  flat_sound ss ts = (
    all (λ s. any (λ t. is_subtype s t) (dedupe ts)) (dedupe ss),
    is_compatible-classes user (dedupe ss) (dedupe ts),
    λ h v c.
        sym (any-dedupe (λ t. instance_check t v) ts)
        ∙ all_sound (dedupe ss) (dedupe ts) v h (any-dedupe (λ s. instance_check s v) ss ∙ c),
  )

  -- A generic against another, from the answer about their arguments.
  same_generic :
      (p : Origin) (c d : Checker) (b : Bool)
      → same_origin p p ≡ true
      → is_compatible user (to_typing_type c) (to_typing_type d) ≡ answer b
      → is_compatible user (generic p (to_typing_type c)) (generic p (to_typing_type d)) ≡ answer b
  same_generic p c d b h e =
      generic_generic user p p (to_typing_type c) (to_typing_type d) (to_typing_type_closed c)
        (to_typing_type_closed d)
      ∙ rw h e

  plain_sound : (ss : List Scalar) (d : Checker) → AnswersSoundly (union_of ss) d
  unfolding to_typing_type check classes
  plain_sound ss (instance_of t) =
      let (b, e, f) = flat_sound ss (t ∷ []) in (b, e, λ h v c. or_false (f h v c))
  plain_sound ss (union_of ts) = flat_sound ss ts
  plain_sound ss (wrapped w d) = plain_sound ss d
  plain_sound ss (list_of d) =
      (false, class_generic user (dedupe ss) list_origin (to_typing_type d), λ h. cc)
  plain_sound ss (entity_of d) =
      (false, class_generic user (dedupe ss) entity_origin (to_typing_type d), λ h. cc)

  list_sound :
      (c : Checker)
      → ((d : Checker) → AnswersSoundly c d)
      → (d : Checker) → AnswersSoundly (list_of c) d
  unfolding to_typing_type check same_origin classes
  list_sound c f (instance_of t) =
      (false, generic_class user list_origin (to_typing_type c) (t ∷ []), λ h. cc)
  list_sound c f (union_of ts) =
      (false, generic_class user list_origin (to_typing_type c) (dedupe ts), λ h. cc)
  list_sound c f (wrapped w d) = list_sound c f d
  list_sound c f (list_of d) =
      let (b, e, sound) = f d in
      (
        b,
        same_generic list_origin c d b refl e,
        λ h v k. every_item (λ w. check c w) (λ w. check d w) (sound h) (o.list_items v) k,
      )
  list_sound c f (entity_of d) = (
    false,
    generic_generic user list_origin entity_origin (to_typing_type c) (to_typing_type d)
        (to_typing_type_closed c) (to_typing_type_closed d),
    λ h. cc,
  )

  entity_sound :
      (c : Checker)
      → ((d : Checker) → AnswersSoundly c d)
      → (d : Checker) → AnswersSoundly (entity_of c) d
  unfolding to_typing_type check same_origin classes
  entity_sound c f (instance_of t) =
      (false, generic_class user entity_origin (to_typing_type c) (t ∷ []), λ h. cc)
  entity_sound c f (union_of ts) =
      (false, generic_class user entity_origin (to_typing_type c) (dedupe ts), λ h. cc)
  entity_sound c f (wrapped w d) = entity_sound c f d
  entity_sound c f (entity_of d) =
      let (b, e, sound) = f d in
      (
        b,
        same_generic entity_origin c d b refl e,
        λ h v k. the_id (λ w. check c w) (λ w. check d w) (sound h) (o.entity_id v) k,
      )
  entity_sound c f (list_of d) = (
    false,
    generic_generic user entity_origin list_origin (to_typing_type c) (to_typing_type d)
        (to_typing_type_closed c) (to_typing_type_closed d),
    λ h. cc,
  )

  answers_soundly : (c d : Checker) → AnswersSoundly c d
  unfolding to_typing_type check classes
  answers_soundly (instance_of s) d =
      let (b, e, f) = plain_sound (s ∷ []) d in (b, e, λ h v k. f h v (rw k refl))
  answers_soundly (union_of ss) d = plain_sound ss d
  answers_soundly (wrapped w c) d = answers_soundly c d
  answers_soundly (list_of c) d = list_sound c (λ e. answers_soundly c e) d
  answers_soundly (entity_of c) d = entity_sound c (λ e. answers_soundly c e) d

  -- The types of any two annotations are supported: the code answers whether the first is
  -- compatible with the second, without an exception.
  pub is_compatible_total :
      (c d : Checker)
      → (b : Bool) × (is_compatible user (to_typing_type c) (to_typing_type d) ≡ answer b)
  is_compatible_total c d = let (b, e, f) = answers_soundly c d in (b, e)

  pub is_compatible_sound :
      (c d : Checker) (v : V)
      → is_compatible user (to_typing_type c) (to_typing_type d) ≡ answer true
      → check c v ≡ true
      → check d v ≡ true
  is_compatible_sound c d v h k =
      let (b, e, f) = answers_soundly c d in f (ground (arith, e, h)) v k
