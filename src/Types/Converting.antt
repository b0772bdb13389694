-- ===== src/Types/Converting.antt =====
-- The type checker of an annotation (rvalue_type_checker.py).
use trust_and_safety_demo.Base.{
  ℕ, suc, String, ◌==◌, nat_eq, string_eq, ◌||◌, Option, none, some, List, [], ◌∷◌, if◌then◌else◌,
  elem, Error, assertion_error, value_error,
}
use trust_and_safety_demo.Ast.Grammar.{
  Annotation, simple, with_variants, Variants, no_variants, variant,
}
use trust_and_safety_demo.Ast.Extracting.{identifier_of}
use trust_and_safety_demo.Types.Defs.{Scalar, str, bool, int, float, none_type}
use trust_and_safety_demo.Types.Checking.{
  Wrapper, extract_literal, secret, extract_secret, Checker, instance_of, union_of, wrapped,
  list_of, entity_of,
}

-- What an AnnotationConversionError says.
pub data Complaint : Type 0 where
  unknown_type generic_without_variants unknown_generic duplicated_type entity_id_type :
      String → Complaint
  union_of_one unexpected_variants : Complaint
  exactly_one_argument : String → ℕ → Complaint

-- A conversion gives its result, an AnnotationConversionError or another exception.
pub data Conversion {ℓ} (A : Type ℓ) : Type ℓ where
  converted : A → Conversion A
  complaint : Complaint → Conversion A
  exception : Error → Conversion A

infixl 5 ◌>>=◌
abbrev pub ◌>>=◌ {ℓ κ} :
    {A : Type ℓ} {B : Type κ} → Conversion A → (A → Conversion B) → Conversion B
converted a >>= f = f a
complaint c >>= f = complaint c
exception e >>= f = exception e

abbrev pub count_variants : Variants → ℕ
count_variants no_variants = 0
count_variants (variant a vs) = suc (count_variants vs)

-- `REGISTRY.get_non_generic`
unfoldable pub get_non_generic : String → Option Scalar
get_non_generic identifier =
    if identifier == "str"
    then some str
    else if identifier == "bool"
    then some bool
    else if identifier == "int"
    then some int
    else if identifier == "float"
    then some float
    else if identifier == "None"
    then some none_type
    else none

-- The generics of the registry, under their names.
pub data Generic : Type 0 where
  union_generic optional_generic list_generic entity_generic : Generic
  wrapper_generic : Wrapper → Generic

-- `REGISTRY.get_generic`
unfoldable pub get_generic : String → Option Generic
get_generic identifier =
    if identifier == "Union"
    then some union_generic
    else if identifier == "Optional"
    then some optional_generic
    else if identifier == "ExtractLiteral"
    then some (wrapper_generic extract_literal)
    else if identifier == "Secret"
    then some (wrapper_generic secret)
    else if identifier == "ExtractSecret"
    then some (wrapper_generic extract_secret)
    else if identifier == "List"
    then some list_generic
    else if identifier == "Entity"
    then some entity_generic
    else none

-- `_convert_simple_annotation_to_typechecker`
unfoldable pub convert_simple : Annotation → Conversion Scalar
unfolding get_non_generic get_generic
convert_simple (with_variants identifier vs) = exception assertion_error
convert_simple (simple identifier) = elim (get_non_generic identifier) [
  | some s ↦ converted s
  | none ↦ elim (get_generic identifier) [
    | some g ↦ complaint (generic_without_variants identifier)
    | none ↦ complaint (unknown_type identifier)
  ]
]

-- The loop of `UnionTypeChecker.parse` over the variants, with the identifiers that it has seen.
unfoldable pub convert_union_items : List String → Variants → Conversion (List Scalar)
unfolding convert_simple
convert_union_items seen no_variants = converted []
convert_union_items seen (variant a vs) =
    let rest = convert_union_items (identifier_of a ∷ seen) vs in
    if elem (identifier_of a) seen
    then complaint (duplicated_type (identifier_of a))
    else convert_simple a >>= λ s. rest >>= λ ss. converted (s ∷ ss)

-- `UnionTypeChecker.__init__` asserts that there is more than one inner type.
unfoldable pub new_union : List Scalar → Conversion Checker
new_union (s ∷ t ∷ ss) = converted (union_of (s ∷ t ∷ ss))
new_union _ = exception assertion_error

unfoldable pub parse_union : Variants → Conversion Checker
unfolding convert_union_items new_union
parse_union (variant a no_variants) = complaint union_of_one
parse_union vs = convert_union_items [] vs >>= new_union

unfoldable pub parse_optional : Variants → Conversion Checker
unfolding convert_simple
parse_optional (variant a no_variants) =
    convert_simple a >>= λ s. converted (union_of (s ∷ none_type ∷ []))
parse_optional vs = complaint (exactly_one_argument "Optional" (count_variants vs))

unfoldable pub parse_list : Variants → Conversion Checker
unfolding convert_simple
parse_list no_variants = exception value_error
parse_list (variant a no_variants) = convert_simple a >>= λ s. converted (list_of (instance_of s))
parse_list (variant a (variant b vs)) = complaint unexpected_variants

unfoldable pub parse_entity : Variants → Conversion Checker
unfolding convert_simple
parse_entity (variant a no_variants) =
    if identifier_of a == "str" || identifier_of a == "int"
    then (convert_simple a >>= λ s. converted (entity_of (instance_of s)))
    else complaint (entity_id_type (identifier_of a))
parse_entity vs = complaint (exactly_one_argument "Entity" (count_variants vs))

-- `checker_class.parse(node, ...)`, where `inner` is what a wrapper makes of its variants.
unfoldable pub parse_generic :
    String → Variants → Conversion Checker → Option Generic → Conversion Checker
unfolding parse_union parse_optional parse_list parse_entity
parse_generic identifier vs inner none = complaint (unknown_generic identifier)
parse_generic identifier vs inner (some union_generic) = parse_union vs
parse_generic identifier vs inner (some optional_generic) = parse_optional vs
parse_generic identifier vs inner (some list_generic) = parse_list vs
parse_generic identifier vs inner (some entity_generic) = parse_entity vs
parse_generic identifier vs inner (some (wrapper_generic w)) =
    inner >>= λ c. converted (wrapped w c)

-- `convert_ast_annotation_to_type_checker`; a wrapper is the only generic that takes another.
unfoldable mutual
  unfolding convert_simple parse_generic get_generic

  pub convert : Annotation → Conversion Checker
  convert (simple identifier) =
      convert_simple (simple identifier) >>= λ s. converted (instance_of s)
  convert (with_variants identifier vs) =
      parse_generic identifier vs (parse_wrapper identifier vs) (get_generic identifier)

  -- `BaseWrapperTypeChecker.parse`
  pub parse_wrapper : String → Variants → Conversion Checker
  parse_wrapper name (variant a no_variants) = convert a
  parse_wrapper name no_variants = complaint (exactly_one_argument name 0)
  parse_wrapper name (variant a (variant b vs)) =
      complaint (exactly_one_argument name (count_variants (variant a (variant b vs))))
