-- ===== src/Ast/Extracting.antt =====
-- `is_constant`, `can_extract` and `should_extract` (grammar.py).
use Prim.Native.Char.{code}
use trust_and_safety_demo.Base.{
  String, ◌==◌, string_eq, nat_eq, Bool, true, false, not, ◌||◌, ◌&&◌, Option, none, some, List, [],
  ◌∷◌, if◌then◌else◌, Result, ok, err, ◌>>=◌, runtime_error,
}
use trust_and_safety_demo.Ast.Grammar.{
  Annotation, simple, with_variants, Variants, no_variants, variant, unset, source, Name,
  Expression, node, name, string, number, boolean, none_literal, list, call, binary_operation,
  unary_operation, binary_comparison, boolean_operation, attribute, format_string, Expressions, nil,
  cons, Keywords, end, keyword, Assign,
}

-- `Name.is_local`: whether the identifier starts with an underscore.
abbrev pub starts_with_underscore : String → Bool
starts_with_underscore String.[] = false
starts_with_underscore (String.◌∷◌ c s) = code c == b'_'

abbrev pub identifier_of : Annotation → String
identifier_of (simple identifier) = identifier
identifier_of (with_variants identifier vs) = identifier

-- `Annotation.can_extract` and `AnnotationWithVariants.can_extract`
unfoldable mutual
  pub annotation_can_extract : Annotation → Bool
  annotation_can_extract (simple identifier) = true
  annotation_can_extract (with_variants identifier vs) =
      if identifier == "Secret"
      then false
      else if identifier == "ExtractSecret"
      then true
      else variants_can_extract vs

  pub variants_can_extract : Variants → Bool
  variants_can_extract no_variants = true
  variants_can_extract (variant a vs) = annotation_can_extract a && variants_can_extract vs

-- `Name.can_extract`
unfoldable pub name_can_extract : Name → Result Bool
name_can_extract n = elim n.source_annotation [
  | unset ↦ err runtime_error
  | source a ↦ elim a [ none ↦ ok true | some annotation ↦ ok (annotation_can_extract annotation) ]
]

-- `any(name.can_extract is False for name in names)`
unfoldable pub any_name_blocked : List Name → Result Bool
any_name_blocked [] = ok false
any_name_blocked (n ∷ ns) =
    let rest = any_name_blocked ns in name_can_extract n >>= λ b. if b then rest else ok true

-- `Expression.can_extract`
unfoldable mutual
  pub can_extract : Expression → Result Bool
  can_extract (node id (name n)) = name_can_extract n
  can_extract (node id (string s)) = ok true
  can_extract (node id (number n)) = ok true
  can_extract (node id (boolean b)) = ok true
  can_extract (node id none_literal) = ok true
  can_extract (node id (list items)) = any_blocked items >>= λ b. ok (not b)
  can_extract (node id (call func arguments)) = any_argument_blocked arguments >>= λ b. ok (not b)
  can_extract (node id (binary_operation left right operator)) = ok true
  can_extract (node id (unary_operation operand operator)) = ok true
  can_extract (node id (binary_comparison left right comparator)) = ok true
  can_extract (node id (boolean_operation values _)) = ok true
  can_extract (node id (attribute n a)) = name_can_extract n
  can_extract (node id (format_string text names)) = any_name_blocked names >>= λ b. ok (not b)

  pub any_blocked : Expressions → Result Bool
  any_blocked nil = ok false
  any_blocked (cons e es) =
      let rest = any_blocked es in can_extract e >>= λ b. if b then rest else ok true

  pub any_argument_blocked : Keywords → Result Bool
  any_argument_blocked end = ok false
  any_argument_blocked (keyword k e ks) =
      let rest = any_argument_blocked ks in can_extract e >>= λ b. if b then rest else ok true

-- `Expression.is_constant`, where a node has it; those that have not are no constants.
unfoldable mutual
  pub is_constant : Expression → Bool
  is_constant (node id (string s)) = true
  is_constant (node id (number n)) = true
  is_constant (node id (boolean b)) = true
  is_constant (node id none_literal) = true
  is_constant (node id (list items)) = all_constant items
  is_constant (node id _) = false

  -- A list among the items is a literal, and counts as one whatever it holds.
  pub all_constant : Expressions → Bool
  all_constant nil = true
  all_constant (cons e es) = (is_literal e || is_constant e) && all_constant es

  pub is_literal : Expression → Bool
  is_literal (node id (string s)) = true
  is_literal (node id (number n)) = true
  is_literal (node id (boolean b)) = true
  is_literal (node id none_literal) = true
  is_literal (node id (list items)) = true
  is_literal (node id _) = false

-- `assign.annotation and assign.annotation.identifier == identifier`
abbrev pub annotated_as : String → Option Annotation → Bool
annotated_as identifier none = false
annotated_as identifier (some a) = identifier_of a == identifier

abbrev pub annotation_blocks : Option Annotation → Bool
annotation_blocks none = false
annotation_blocks (some a) = not (annotation_can_extract a)

-- `Assign.can_extract` and `Assign.should_extract`
unfoldable pub assign_can_extract : Assign → Result Bool
assign_can_extract a =
    if annotation_blocks a.annotation
    then ok false
    else if annotated_as "ExtractSecret" a.annotation
    then ok true
    else can_extract a.value

unfoldable pub should_extract : Assign → Result Bool
unfolding assign_can_extract is_constant
should_extract a =
    if annotated_as "ExtractLiteral" a.annotation
    then ok true
    else if starts_with_underscore a.target.identifier || is_constant a.value
    then ok false
    else if annotated_as "ExtractSecret" a.annotation
    then ok true
    else assign_can_extract a >>= λ b. ok b
