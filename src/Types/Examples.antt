-- ===== src/Types/Examples.antt =====
-- The type system on small objects.
use trust_and_safety_demo.Base.{
  ℕ, String, ◌≡◌, refl, ◌⊎◌, Bool, true, false, Option, none, some, List, [], ◌∷◌, Result, ok, err,
  type_error, arith,
}
use trust_and_safety_demo.Ast.Grammar.{Annotation, simple, with_variants, variant, no_variants}
use trust_and_safety_demo.Types.Defs.{
  Scalar, str, bool, int, float, none_type, Class, Typing, Objects, is_subclass,
}
use trust_and_safety_demo.Types.Checking.{
  Checker, instance_of, union_of, wrapped, secret, list_of, entity_of, classes, to_typing_type,
  check, coerce,
}
use trust_and_safety_demo.Types.Evaluating.{answer, is_compatible_type}
use trust_and_safety_demo.Types.Unwrapping.{is_compatible_type_sound, is_compatible_type-unwrapped}
use trust_and_safety_demo.Types.Coercing.{IsPython, coerce-check, coerce_same}
use trust_and_safety_demo.Types.Converting.{
  Complaint, complaint, converted, wrapper_generic, get_generic, convert,
}
use trust_and_safety_demo.Types.Parsing.{names, no_more, and_name, inside, convert_total}

-- Objects of the classes of the annotations, lists and entities.
mutual
  data Object : Type 0 where
    none_object : Object
    bool_object : Bool → Object
    int_object : ℕ → Object
    float_object : ℕ → Object
    str_object : String → Object
    list_object : Items → Object
    entity_object : Object → Object

  data Items : Type 0 where
    nil : Items
    cons : Object → Items → Items

abbrev to_list : Items → List Object
to_list nil = []
to_list (cons v vs) = v ∷ to_list vs

abbrev from_list : List Object → Items
from_list [] = nil
from_list (v ∷ vs) = cons v (from_list vs)

abbrev items_of : Object → Option (List Object)
items_of (list_object vs) = some (to_list vs)
items_of _ = none

abbrev id_of : Object → Option Object
id_of (entity_object id) = some id
id_of _ = none

abbrev class_of : Object → Option Scalar
class_of none_object = some none_type
class_of (bool_object b) = some bool
class_of (int_object n) = some int
class_of (float_object n) = some float
class_of (str_object s) = some str
class_of _ = none

class_test : Option Scalar → Scalar → Bool
unfolding is_subclass
class_test none t = false
class_test (some s) t = is_subclass s t

abbrev make : Scalar → Object → Result Object
make str v = ok (str_object "text")
make bool v = ok (bool_object true)
make int (str_object s) = ok (int_object 5)
make int v = err type_error
make float (str_object s) = ok (float_object 5)
make float v = err type_error
make none_type v = err type_error

instance abbrev objects : Objects Object
objects = record {
  is_instance = λ v t. class_test (class_of v) t;
  list_items = items_of;
  sequence_items = items_of;
  entity_id = id_of;
  make_list = λ vs. list_object (from_list vs);
  construct = make;
}

to_list-from_list : (vs : List Object) → to_list (from_list vs) ≡ vs
to_list-from_list [] = refl
to_list-from_list (v ∷ vs) = rw (to_list-from_list vs) refl

made_lem : (s : Scalar) (v w : Object) → make s v ≡ ok w → class_of w ≡ some s
made_lem str v w h = ground arith
made_lem bool v w h = ground arith
made_lem int (str_object s) w h = ground arith
made_lem int _ w h = cc
made_lem float (str_object s) w h = ground arith
made_lem float _ w h = cc
made_lem none_type v w h = cc

class_test_lem : (c : Option Scalar) (s t : Scalar) → c ≡ some s → class_test c t ≡ is_subclass s t
unfolding class_test
class_test_lem c s t h = rw h refl

objects-IsPython : IsPython objects
objects-IsPython = record {
  constructed = λ s v w h t. class_test_lem (class_of w) s t (made_lem s v w h);
  made = λ vs. rw (to_list-from_list vs) refl;
}

abbrev no_user_classes : Class → Class → Bool
no_user_classes c d = false

abbrev no_user_types : Typing → Option Typing
no_user_types t = none

abbrev ints : Checker
ints = list_of (instance_of int)

abbrev optional_floats : Checker
optional_floats = wrapped secret (list_of (union_of (float ∷ none_type ∷ [])))

abbrev one_int : Object
one_int = list_object (cons (int_object 1) nil)

one_int-check : check ints one_int ≡ true
unfolding check class_test
one_int-check = refl

lists_compatible :
    is_compatible_type no_user_classes no_user_types
      (to_typing_type ints)
      (to_typing_type optional_floats)
      true
    ≡ answer (some none)
unfolding is_compatible_type to_typing_type classes
lists_compatible = refl

is_compatible_type_sound_example : check optional_floats one_int ≡ true
is_compatible_type_sound_example =
    is_compatible_type_sound no_user_classes no_user_types ints optional_floats true one_int
      lists_compatible one_int-check

abbrev user_entity : Object
user_entity = entity_object (int_object 7)

user_entity-check : check (entity_of (instance_of int)) user_entity ≡ true
unfolding check class_test
user_entity-check = refl

entity_compatible :
    is_compatible_type no_user_classes no_user_types
      (to_typing_type (entity_of (instance_of int)))
      (to_typing_type (instance_of float))
      true
    ≡ answer (some (some (to_typing_type (instance_of int))))
unfolding is_compatible_type to_typing_type classes
entity_compatible = refl

is_compatible_type-unwrapped_example :
    (id : Object) × (id_of user_entity ≡ some id) × (check (instance_of float) id ≡ true)
is_compatible_type-unwrapped_example =
    is_compatible_type-unwrapped no_user_classes no_user_types (entity_of (instance_of int))
      (instance_of float) true (to_typing_type (instance_of int)) user_entity entity_compatible
      user_entity-check

coerced :
    coerce ints (list_object (cons (str_object "5") nil))
    ≡ ok (list_object (cons (int_object 5) nil))
unfolding coerce class_test
coerced = refl

coerce-check_example : check ints (list_object (cons (int_object 5) nil)) ≡ true
coerce-check_example =
    coerce-check objects-IsPython ints (list_object (cons (str_object "5") nil))
      (list_object (cons (int_object 5) nil)) coerced

coerce_same_example : coerce ints one_int ≡ ok one_int
coerce_same_example = coerce_same ints one_int one_int-check

abbrev secret_union : Annotation
secret_union = with_variants "Secret" (
    variant (with_variants "Union" (variant (simple "int") (variant (simple "str") no_variants)))
      no_variants)

is_wrapper : get_generic "Secret" ≡ some (wrapper_generic secret)
unfolding get_generic
is_wrapper = refl

convert_total_example :
    ((c : Checker) × (convert secret_union ≡ converted c))
    ⊎ ((e : Complaint) × (convert secret_union ≡ complaint e))
convert_total_example =
    convert_total (inside "Secret" secret is_wrapper (names "Union" "int" (and_name "str" no_more)))
