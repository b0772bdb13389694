-- ===== src/Types/Unwrapping.antt =====
-- What the answers of `is_compatible_type` mean for objects, unwrapping included.
use trust_and_safety_demo.Base.{
  ◌≡◌, ◌≢◌, refl, ap, subst, Bool, true, false, Option, none, some, List, [], ◌∷◌, inl, inr,
  Option-cases, arith,
}
use trust_and_safety_demo.Types.Defs.{Scalar, Class, Typing, Objects, dedupe}
use trust_and_safety_demo.Types.Checking.{
  Checker, instance_of, union_of, wrapped, list_of, entity_of, classes, to_typing_type, check,
}
use trust_and_safety_demo.Types.Evaluating.{
  Outcome, answer, unsupported, not_a_class, ◌>>=◌, unwrapped, retry, is_compatible,
  maybe_post_execution_type, is_compatible_type,
}
use trust_and_safety_demo.Types.Sound.{is_compatible_sound, is_compatible_total}

classes_stay :
    (post : Typing → Option Typing) (ss : List Scalar)
    → maybe_post_execution_type post (classes ss) ≡ none
unfolding maybe_post_execution_type classes
classes_stay post [] = refl
classes_stay post (s ∷ []) = refl
classes_stay post (s ∷ t ∷ ss) = refl

-- What the first try and the second come to.
first_try :
    (u : Typing) (r : Outcome Bool) → (r >>= λ c. answer (unwrapped u c)) ≢ answer (some none)
first_try u (answer true) h = cc
first_try u (answer false) h = cc
first_try u unsupported h = cc
first_try u not_a_class h = cc

second_try :
    (u w : Typing) (r : Outcome Bool)
    → (r >>= λ c. answer (unwrapped u c)) ≡ answer (some (some w))
    → (r ≡ answer true) × (u ≡ w)
second_try u w (answer true) h = (refl, cc)
second_try u w (answer false) h = cc
second_try u w unsupported h = cc
second_try u w not_a_class h = cc

module _ (user : Class → Class → Bool) (a : Typing) where
  not_as_it_is : (m : Option Typing) → retry user a m ≢ answer (some none)
  unfolding retry
  not_as_it_is none h = cc
  not_as_it_is (some u) h = first_try u (is_compatible user u a) h

  retried :
      (m : Option Typing) (w : Typing)
      → retry user a m ≡ answer (some (some w))
      → (m ≡ some w) × (is_compatible user w a ≡ answer true)
  unfolding retry
  retried none w h = cc
  retried (some u) w h =
      let (e, same) = second_try u w (is_compatible user u a) h in
      (ap some same, subst (λ x. is_compatible user x a ≡ answer true) same e)

  module _ (post : Typing → Option Typing) (t : Typing) where
    as_it_is :
        (b allow : Bool)
        → is_compatible user t a ≡ answer b
        → is_compatible_type user post t a allow ≡ answer (some none)
        → b ≡ true
    unfolding is_compatible_type
    as_it_is true allow e h = refl
    as_it_is false false e h = absurd (ground (arith, e, h))
    as_it_is false true e h =
        absurd (not_as_it_is (maybe_post_execution_type post t) (rw (e, is_compatible_type) at h))

    unwrapping :
        (b allow : Bool) (w : Typing)
        → is_compatible user t a ≡ answer b
        → is_compatible_type user post t a allow ≡ answer (some (some w))
        → (maybe_post_execution_type post t ≡ some w) × (is_compatible user w a ≡ answer true)
    unfolding is_compatible_type
    unwrapping true allow w e h = absurd (ground (arith, e, h))
    unwrapping false false w e h = absurd (ground (arith, e, h))
    unwrapping false true w e h =
        retried (maybe_post_execution_type post t) w (rw (e, is_compatible_type) at h)

module _ {V : Type 0} ⦃o : Objects V⦄ (user : Class → Class → Bool)
    (post : Typing → Option Typing) where
  -- When `is_compatible_type` says that the types of two annotations are compatible as they are,
  -- every object that the checker of the first accepts is accepted by that of the second: lists and
  -- entities included, and whatever the wrappers.
  pub is_compatible_type_sound :
      (c d : Checker) (allow : Bool) (v : V)
      → is_compatible_type user post (to_typing_type c) (to_typing_type d) allow
        ≡ answer (some none)
      → check c v ≡ true
      → check d v ≡ true
  is_compatible_type_sound c d allow v h k =
      let (b, e) = is_compatible_total V user c d in
      let yes_ = as_it_is user (to_typing_type d) post (to_typing_type c) b allow e h in
      is_compatible_sound V user c d v (rw yes_ at e) k

  converted_entity :
      (c : Checker) (w : Typing) (v : V)
      → maybe_post_execution_type post (to_typing_type c) ≡ some w
      → check c v ≡ true
      → (e : Checker) × (w ≡ to_typing_type e)
        × ((id : V) × (o.entity_id v ≡ some id) × (check e id ≡ true))
  unfolding maybe_post_execution_type to_typing_type check
  converted_entity (instance_of s) w v h k = cc
  converted_entity (union_of ss) w v h k = absurd (ground (arith, h, classes_stay post (dedupe ss)))
  converted_entity (wrapped x c) w v h k = converted_entity c w v h k
  converted_entity (list_of c) w v h k = cc
  converted_entity (entity_of c) w v h k = elim (Option-cases (o.entity_id v)) [
    | inl missing ↦ absurd (ground (arith, missing, k))
    | inr (id, found) ↦ (c, cc, (id, found, rw (found, check) at k))
  ]

  -- When it says that they are once the first is unwrapped, every object that the checker of the
  -- first accepts is an entity, and the checker of the second accepts its id.
  pub is_compatible_type-unwrapped :
      (c d : Checker) (allow : Bool) (w : Typing) (v : V)
      → is_compatible_type user post (to_typing_type c) (to_typing_type d) allow
        ≡ answer (some (some w))
      → check c v ≡ true
      → (id : V) × (o.entity_id v ≡ some id) × (check d id ≡ true)
  is_compatible_type-unwrapped c d allow w v h k =
      let (b, e) = is_compatible_total V user c d in
      let (converts, compatible) =
        unwrapping user (to_typing_type d) post (to_typing_type c) b allow w e h in
      let (inner, same, (id, found, good)) = converted_entity c w v converts k in
      (id, found, is_compatible_sound V user inner d id (rw same at compatible) good)
