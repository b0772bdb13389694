-- ===== src/Ast/Grammar.antt =====
-- The nodes of the syntax tree (grammar.py). A node has the identity that Python's `id` gives it.
use trust_and_safety_demo.Execution.Values.{Comparator}
use trust_and_safety_demo.Base.{ℕ, String, Bool, not, Option, List, ℤ, pos, negsuc, zero, suc}

-- Annotations and the lists of their variants.
mutual
  pub data Annotation : Type 0 where
    simple : String → Annotation
    with_variants : String → Variants → Annotation

  pub data Variants : Type 0 where
    no_variants : Variants
    variant : Annotation → Variants → Variants

pub data Context : Type 0 where
  store load : Context

-- `_source_annotation`: unset until the static types are validated.
pub data SourceAnnotation : Type 0 where
  unset : SourceAnnotation
  source : Option Annotation → SourceAnnotation

-- A name, with the path of its file.
pub record Name : Type 0 where
  pub identifier : String
  pub context : Context
  pub path : String
  pub source_annotation : SourceAnnotation

-- The value of a number literal: an integer, or a float as its sign and its magnitude.
pub data NumberValue : Type 0 where
  int : ℤ → NumberValue
  float : Bool → String → NumberValue

pub data Operator : Type 0 where
  add subtract multiply divide floor_divide modulo pow left_shift right_shift bitwise_or : Operator
  bitwise_xor bitwise_and : Operator

pub data UnaryOperator : Type 0 where
  not_operator usub : UnaryOperator

pub data BooleanOperand : Type 0 where
  and_operand or_operand : BooleanOperand

mutual
  pub data Expression : Type 0 where
    node : ℕ → Shape → Expression

  pub data Shape : Type 0 where
    name : Name → Shape
    string : String → Shape
    number : NumberValue → Shape
    boolean : Bool → Shape
    none_literal : Shape
    list : Expressions → Shape
    call : Expression → Keywords → Shape
    binary_operation : Expression → Expression → Operator → Shape
    unary_operation : Expression → UnaryOperator → Shape
    binary_comparison : Expression → Expression → Comparator → Shape
    boolean_operation : Expressions → BooleanOperand → Shape
    attribute : Name → String → Shape
    format_string : String → List Name → Shape

  pub data Expressions : Type 0 where
    nil : Expressions
    cons : Expression → Expressions → Expressions

  pub data Keywords : Type 0 where
    end : Keywords
    keyword : String → Expression → Keywords → Keywords

pub record Assign : Type 0 where
  pub target : Name
  pub value : Expression
  pub annotation : Option Annotation

pub data Statement : Type 0 where
  assignment : Assign → Statement
  call_statement : Expression → Statement

-- `-n` of the value of a number literal.
unfoldable pub negate : NumberValue → NumberValue
negate (int (pos zero)) = int (pos 0)
negate (int (pos (suc n))) = int (negsuc n)
negate (int (negsuc n)) = int (pos (suc n))
negate (float negative magnitude) = float (not negative) magnitude

abbrev pub shape : Expression → Shape
shape (node id s) = s
