-- ===== src/Types/Defs.antt =====
-- Classes, the types of `typing` that the type system meets, and what it asks of Python's objects.
use trust_and_safety_demo.Base.{
  ℕ, zero, suc, ◌≡◌, refl, sym, ap, ◌∙◌, Bool, true, false, not, ◌||◌, ◌&&◌, ◌==◌, nat_beq,
  nat_beq_iff, Eq, Option, List, [], ◌∷◌, filter, Result, ◌↔◌,
}

-- The classes of the annotations that are not generic: `str`, `bool`, `int`, `float`, `type(None)`.
pub data Scalar : Type 0 where
  str bool int float none_type : Scalar

abbrev pub tag : Scalar → ℕ
tag str = 0
tag bool = 1
tag int = 2
tag float = 3
tag none_type = 4

abbrev untag : ℕ → Scalar
untag zero = str
untag (suc zero) = bool
untag (suc (suc zero)) = int
untag (suc (suc (suc zero))) = float
untag (suc (suc (suc (suc n)))) = none_type

abbrev pub scalar_beq : Scalar → Scalar → Bool
scalar_beq s t = nat_beq (tag s) (tag t)

untag-tag : (s : Scalar) → untag (tag s) ≡ s
untag-tag str = refl
untag-tag bool = refl
untag-tag int = refl
untag-tag float = refl
untag-tag none_type = refl

pub scalar_beq_iff : (s t : Scalar) → (scalar_beq s t ≡ true) ↔ (s ≡ t)
scalar_beq_iff s t = (
  λ h. sym (untag-tag s) ∙ (ap untag ((nat_beq_iff (tag s) (tag t)).0 h) ∙ untag-tag t),
  λ e. (nat_beq_iff (tag s) (tag t)).1 (ap tag e),
)

instance abbrev pub scalar_eq : Eq Scalar
scalar_eq = record { beq = scalar_beq; beq_iff = scalar_beq_iff }

-- A class: one of these, or one that is defined elsewhere.
pub data Class : Type 0 where
  builtin : Scalar → Class
  user_class : ℕ → Class

-- The generics with a single argument that are compared with their arguments: `List`, and the
-- subclasses of OspreyInvariantGeneric, of which `EntityT` is one.
pub data Origin : Type 0 where
  list_origin entity_origin : Origin
  user_origin : ℕ → Origin

unfoldable pub same_origin : Origin → Origin → Bool
same_origin list_origin list_origin = true
same_origin entity_origin entity_origin = true
same_origin (user_origin m) (user_origin n) = nat_beq m n
same_origin _ _ = false

mutual
  pub data Typing : Type 0 where
    any_type : Typing
    simple : Class → Typing
    type_variable : ℕ → Typing
    union : Typings → Typing
    generic : Origin → Typing → Typing
    const_expr : Typing → Typing
    unknown_generic : ℕ → Typing

  pub data Typings : Type 0 where
    no_types : Typings
    type_and : Typing → Typings → Typings

-- The objects of Python: `isinstance` for classes and for lists, the sequences that are neither
-- `str` nor `bytes`, the `id` of an entity, a list of objects, and the call of a class.
pub record Objects (V : Type 0) : Type 0 where
  pub is_instance : V → Scalar → Bool
  pub list_items : V → Option (List V)
  pub sequence_items : V → Option (List V)
  pub entity_id : V → Option V
  pub make_list : List V → V
  pub construct : Scalar → V → Result V

-- `issubclass`, among the classes of the annotations.
unfoldable pub is_subclass : Scalar → Scalar → Bool
is_subclass s t = scalar_beq s t || (scalar_beq s bool && scalar_beq t int)

-- The first of equal items stays, as in `Union[...]`.
abbrev pub dedupe : List Scalar → List Scalar
dedupe [] = []
dedupe (s ∷ ss) = s ∷ filter (λ t. not (t == s)) (dedupe ss)
