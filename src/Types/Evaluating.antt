-- ===== src/Types/Evaluating.antt =====
-- Whether a type is compatible with another (type_evaluator.py).
use trust_and_safety_demo.Base.{
  ℕ, Bool, true, false, not, ◌||◌, ◌&&◌, ◌==◌, nat_eq, Option, none, some, List, [], ◌∷◌,
  if◌then◌else◌,
}
use trust_and_safety_demo.Types.Defs.{
  Scalar, bool, int, float, scalar_eq, Class, builtin, user_class, Origin, list_origin,
  entity_origin, same_origin, Typing, any_type, simple, type_variable, union, generic, const_expr,
  unknown_generic, Typings, no_types, type_and, is_subclass,
}

-- What a question about types comes to: its answer, an UnsupportedTypeError, or the TypeError of an
-- `issubclass` of what is no class.
pub data Outcome (A : Type 0) : Type 0 where
  answer : A → Outcome A
  unsupported : Outcome A
  not_a_class : Outcome A

infixl 5 ◌>>=◌
abbrev pub ◌>>=◌ : {A B : Type 0} → Outcome A → (A → Outcome B) → Outcome B
answer a >>= f = f a
unsupported >>= f = unsupported
not_a_class >>= f = not_a_class

-- `len(get_parameters(t)) != 0`
unfoldable mutual
  pub has_parameters : Typing → Bool
  has_parameters (type_variable n) = true
  has_parameters (union ts) = any_has_parameters ts
  has_parameters (generic o t) = has_parameters t
  has_parameters (const_expr t) = has_parameters t
  has_parameters any_type = false
  has_parameters (simple c) = false
  has_parameters (unknown_generic n) = false

  pub any_has_parameters : Typings → Bool
  any_has_parameters no_types = false
  any_has_parameters (type_and t ts) = has_parameters t || any_has_parameters ts

-- A type that `_is_simple_type` accepts.
pub data Candidate : Type 0 where
  anything : Candidate
  class : Class → Candidate
  variable : ℕ → Candidate

abbrev pub as_candidate : Typing → Option Candidate
as_candidate any_type = some anything
as_candidate (simple c) = some (class c)
as_candidate (type_variable n) = some (variable n)
as_candidate _ = none

unfoldable pub union_candidates : Typings → Outcome (List Candidate)
union_candidates no_types = answer []
union_candidates (type_and t ts) =
    let rest = union_candidates ts in
    elim (as_candidate t) [ none ↦ unsupported | some c ↦ rest >>= λ cs. answer (c ∷ cs) ]

-- `_get_type_candidates`
unfoldable pub get_type_candidates : Typing → Outcome (List Candidate)
unfolding union_candidates
get_type_candidates (union ts) = union_candidates ts
get_type_candidates any_type = answer (anything ∷ [])
get_type_candidates (simple c) = answer (class c ∷ [])
get_type_candidates (type_variable n) = answer (variable n ∷ [])
get_type_candidates (generic o t) = unsupported
get_type_candidates (const_expr t) = unsupported
get_type_candidates (unknown_generic n) = unsupported

-- `PostExecutionConvertible.maybe_post_execution_type`: an entity converts to the type of its
-- id. What the other classes that are defined elsewhere convert to is a parameter.
unfoldable pub maybe_post_execution_type : (Typing → Option Typing) → Typing → Option Typing
maybe_post_execution_type user (generic entity_origin t) = some t
maybe_post_execution_type user (generic list_origin t) = none
maybe_post_execution_type user (simple (builtin s)) = none
maybe_post_execution_type user (union ts) = none
maybe_post_execution_type user any_type = none
maybe_post_execution_type user (type_variable n) = none
maybe_post_execution_type user t = user t

abbrev pub unwrapped : Typing → Bool → Option (Option Typing)
unwrapped u true = some (some u)
unwrapped u false = none

-- `issubclass` of the classes that are defined elsewhere is a parameter.
module _ (user_subclass : Class → Class → Bool) where
  unfoldable pub subclass : Class → Class → Bool
  unfolding is_subclass
  subclass (builtin s) (builtin t) = is_subclass s t
  subclass (user_class n) d = user_subclass (user_class n) d
  subclass c (user_class n) = user_subclass c (user_class n)

  abbrev pub is_class : Scalar → Class → Bool
  is_class s (builtin t) = t == s
  is_class s (user_class n) = false

  -- One round of `_is_acceptable_candidate`.
  unfoldable pub accepts : Candidate → Candidate → Outcome Bool
  unfolding subclass
  accepts anything accepted = answer true
  accepts candidate anything = answer true
  accepts (class c) (class d) = answer (
      (subclass c d && not (is_class int d && is_class bool c))
      || (is_class float d && is_class int c))
  accepts (variable n) accepted = not_a_class
  accepts candidate (variable n) = not_a_class

  -- `_is_acceptable_candidate`
  unfoldable pub is_acceptable_candidate : Candidate → List Candidate → Outcome Bool
  unfolding accepts
  is_acceptable_candidate c [] = answer false
  is_acceptable_candidate c (d ∷ ds) =
      let rest = is_acceptable_candidate c ds in
      accepts c d >>= λ b. if b then answer true else rest

  unfoldable pub all_acceptable : List Candidate → List Candidate → Outcome Bool
  unfolding is_acceptable_candidate
  all_acceptable [] ds = answer true
  all_acceptable (c ∷ cs) ds =
      let rest = all_acceptable cs ds in
      is_acceptable_candidate c ds >>= λ b. if b then rest else answer false

  unfoldable pub compare_candidates : Typing → Typing → Outcome Bool
  unfolding get_type_candidates all_acceptable
  compare_candidates t a = do
    cs ← get_type_candidates t
    ds ← get_type_candidates a
    all_acceptable cs ds

  abbrev pub is_any : Typing → Bool
  is_any any_type = true
  is_any t = false

  abbrev pub strip_const_expr : Typing → Typing
  strip_const_expr (const_expr a) = a
  strip_const_expr a = a

  -- A generic of a single argument against another type; `inner` compares its argument.
  unfoldable pub compare_generic : Origin → Typing → Typing → (Typing → Outcome Bool) → Outcome Bool
  unfolding same_origin has_parameters
  compare_generic o t (generic p a) inner =
      if not (same_origin o p)
      then answer false
      else if has_parameters t
      then unsupported
      else if has_parameters a
      then unsupported
      else inner a
  compare_generic o t a inner = answer false

  -- A type that is no such generic against another.
  unfoldable pub compare_plain : Typing → Typing → Outcome Bool
  unfolding compare_candidates
  compare_plain t (generic p a) = answer false
  compare_plain t a = compare_candidates t a

  -- `_is_compatible_type`
  unfoldable pub is_compatible : Typing → Typing → Outcome Bool
  unfolding compare_generic compare_plain
  is_compatible any_type a = answer true
  is_compatible (const_expr (generic o t)) a =
      let inner : Typing → Outcome Bool = λ b. is_compatible t b in
      if is_any a then answer true else compare_generic o t (strip_const_expr a) inner
  is_compatible (generic o t) a =
      let inner : Typing → Outcome Bool = λ b. is_compatible t b in
      if is_any a then answer true else compare_generic o t (strip_const_expr a) inner
  is_compatible (const_expr t) a =
      if is_any a then answer true else compare_plain t (strip_const_expr a)
  is_compatible t a = if is_any a then answer true else compare_plain t (strip_const_expr a)

  -- The second try of `is_compatible_type`, with the type that the first converts to.
  unfoldable pub retry : Typing → Option Typing → Outcome (Option (Option Typing))
  unfolding is_compatible
  retry a none = answer none
  retry a (some u) = is_compatible u a >>= λ c. answer (unwrapped u c)

  -- `is_compatible_type`: `some none` is compatible, `some (some u)` is so once it is unwrapped to
  -- `u`.
  unfoldable pub is_compatible_type :
      (Typing → Option Typing) → Typing → Typing → Bool → Outcome (Option (Option Typing))
  unfolding is_compatible retry maybe_post_execution_type
  is_compatible_type user t a allow_unwrap = do
    b ← is_compatible t a
    if b
        then answer (some none)
        else if not allow_unwrap
        then answer none
        else retry a (maybe_post_execution_type user t)
