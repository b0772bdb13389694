-- ===== src/Types/Checking.antt =====
-- The type checkers of annotations: what they accept and how they coerce (rvalue_type_checker.py).
use trust_and_safety_demo.Base.{
  Bool, false, not, ◌||◌, ◌&&◌, ◌==◌, Option, none, some, List, [], ◌∷◌, all, any, if◌then◌else◌,
  Result, ok, err, ◌>>=◌, type_error,
}
use trust_and_safety_demo.Types.Defs.{
  Scalar, bool, int, float, none_type, scalar_eq, builtin, Typing, simple, union, generic,
  list_origin, entity_origin, Typings, no_types, type_and, Objects, dedupe,
}

-- `ExtractLiteralTypeChecker`, `SecretTypeChecker` and `ExtractSecretTypeChecker`
pub data Wrapper : Type 0 where
  extract_literal secret extract_secret : Wrapper

-- The inner types of a union, or of an optional, come from annotations that are not generic.
pub data Checker : Type 0 where
  instance_of : Scalar → Checker
  union_of : List Scalar → Checker
  wrapped : Wrapper → Checker → Checker
  list_of : Checker → Checker
  entity_of : Checker → Checker

abbrev pub types_of : List Scalar → Typings
types_of [] = no_types
types_of (s ∷ ss) = type_and (simple (builtin s)) (types_of ss)

-- `Union[...]` of distinct classes: that of one class is the class.
unfoldable pub classes : List Scalar → Typing
classes [] = union (types_of [])
classes (s ∷ []) = simple (builtin s)
classes (s ∷ t ∷ ss) = union (types_of (s ∷ t ∷ ss))

-- `to_typing_type`
unfoldable pub to_typing_type : Checker → Typing
to_typing_type (instance_of s) = simple (builtin s)
to_typing_type (union_of ss) = classes (dedupe ss)
to_typing_type (wrapped w c) = to_typing_type c
to_typing_type (list_of c) = generic list_origin (to_typing_type c)
to_typing_type (entity_of c) = generic entity_origin (to_typing_type c)

abbrev pub is_number : Scalar → Bool
is_number s = s == int || s == float

-- Only a TypeError leads to the next type.
unfoldable pub or_next : {V : Type 0} → Result V → Result V → Result V
or_next (ok w) rest = ok w
or_next (err type_error) rest = rest
or_next (err e) rest = err e

module _ {V : Type 0} ⦃o : Objects V⦄ where
  -- `InstanceTypeChecker.check` and `coerce`
  unfoldable pub instance_check : Scalar → V → Bool
  instance_check s v =
      not (is_number s && o.is_instance v bool)
      && ((s == float && o.is_instance v int) || o.is_instance v s)

  unfoldable pub instance_coerce : Scalar → V → Result V
  unfolding instance_check
  instance_coerce s v =
      if instance_check s v
      then ok v
      else if s == none_type
      then err type_error
      else if o.is_instance v none_type && not (s == bool)
      then err type_error
      else if is_number s && o.is_instance v bool
      then err type_error
      else o.construct s v

  -- `check` of each checker.
  unfoldable pub check : Checker → V → Bool
  unfolding instance_check
  check (instance_of s) v = instance_check s v
  check (union_of ss) v = any (λ s. instance_check s v) ss
  check (wrapped w c) v = check c v
  check (list_of c) v = elim (o.list_items v) [ none ↦ false | some vs ↦ all (λ w. check c w) vs ]
  check (entity_of c) v = elim (o.entity_id v) [ none ↦ false | some id ↦ check c id ]

  -- `_find_working_inner_type`
  unfoldable pub find_working_inner_type : List Scalar → V → Option Scalar
  unfolding instance_check
  find_working_inner_type [] v = none
  find_working_inner_type (s ∷ ss) v =
      if instance_check s v then some s else find_working_inner_type ss v

  -- The first inner type that takes the object.
  unfoldable pub coerce_to_any : List Scalar → V → Result V
  unfolding instance_coerce or_next
  coerce_to_any [] v = err type_error
  coerce_to_any (s ∷ ss) v = let rest = coerce_to_any ss v in or_next (instance_coerce s v) rest

  unfoldable pub coerce_items : (V → Result V) → List V → Result (List V)
  coerce_items f [] = ok []
  coerce_items f (v ∷ vs) = do w ← f v; ws ← coerce_items f vs; ok (w ∷ ws)

  -- `[self.item_checker.coerce(item) for item in obj]`, of a sequence.
  unfoldable pub coerce_sequence : (V → Result V) → Option (List V) → Result V
  unfolding coerce_items
  coerce_sequence f none = err type_error
  coerce_sequence f (some vs) = do ws ← coerce_items f vs; ok (o.make_list ws)

  -- `RValueTypeChecker.coerce`
  unfoldable pub coerce_checked : Checker → V → Result V
  unfolding check
  coerce_checked c v = if check c v then ok v else err type_error

  -- `coerce` of each checker.
  unfoldable pub coerce : Checker → V → Result V
  unfolding instance_coerce find_working_inner_type coerce_to_any coerce_sequence coerce_checked
      check
  coerce (instance_of s) v = instance_coerce s v
  coerce (union_of ss) v = elim (find_working_inner_type ss v) [
    | some s ↦ instance_coerce s v
    | none ↦ coerce_to_any ss v
  ]
  coerce (wrapped w c) v = coerce_checked (wrapped w c) v
  coerce (list_of c) v =
      let coerced = coerce_sequence (λ w. coerce c w) (o.sequence_items v) in
      if check (list_of c) v then ok v else coerced
  coerce (entity_of c) v = coerce_checked (entity_of c) v
