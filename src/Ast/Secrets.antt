-- ===== src/Ast/Secrets.antt =====
-- Which secrets keep an assignment from being extracted.
use trust_and_safety_demo.Base.{
  ap, if◌then◌else◌, Bool, true, false, not, ◌||◌, ◌&&◌, ◌≡◌, refl, none, some, List, [], ◌∷◌, ◌++◌,
  ok, ◌>>=◌, all, all-append, All, arith,
}
use trust_and_safety_demo.Ast.Grammar.{
  unset, source, Name, Expression, node, name, string, number, boolean, none_literal, list, call,
  binary_operation, unary_operation, binary_comparison, boolean_operation, attribute, format_string,
  Expressions, nil, cons, Keywords, end, keyword, Assign,
}
use trust_and_safety_demo.Ast.Extracting.{
  annotation_can_extract, name_can_extract, any_name_blocked, can_extract, any_blocked,
  any_argument_blocked, is_constant, annotated_as, annotation_blocks, assign_can_extract,
  should_extract, starts_with_underscore,
}

-- The names that an expression passes on as they are: operators pass on none.
abbrev mutual
  pub carried : Expression → List Name
  carried (node id (name n)) = n ∷ []
  carried (node id (list items)) = carried_all items
  carried (node id (call func arguments)) = carried_arguments arguments
  carried (node id (attribute n a)) = n ∷ []
  carried (node id (format_string text names)) = names
  carried (node id _) = []

  pub carried_all : Expressions → List Name
  carried_all nil = []
  carried_all (cons e es) = carried e ++ carried_all es

  pub carried_arguments : Keywords → List Name
  carried_arguments end = []
  carried_arguments (keyword k e ks) = carried e ++ carried_arguments ks

-- Whether the annotation of the assignment of a name lets it be extracted.
abbrev pub is_open : Name → Bool
is_open n = elim n.source_annotation [
  | unset ↦ false
  | source a ↦ elim a [ none ↦ true | some annotation ↦ annotation_can_extract annotation ]
]

-- The static types of the name were validated.
abbrev pub IsValidated : Name → Type 0
IsValidated n = name_can_extract n ≡ ok (is_open n)

All-left {ℓ κ} : {A : Type ℓ} (P : A → Type κ) (xs ys : List A) → All P (xs ++ ys) → All P xs
All-left P [] ys h = tt
All-left P (x ∷ xs) ys h = (h.0, All-left P xs ys h.1)

All-right {ℓ κ} : {A : Type ℓ} (P : A → Type κ) (xs ys : List A) → All P (xs ++ ys) → All P ys
All-right P [] ys h = h
All-right P (x ∷ xs) ys h = All-right P xs ys h.1

not-not : (b : Bool) → not (not b) ≡ b
not-not true = refl
not-not false = refl

one_name : (n : Name) → ok (is_open n) ≡ ok (all is_open (n ∷ []))
one_name n = ground arith

either_blocked : (a b : Bool) → (if a then ok (not b) else ok true) ≡ ok (not (a && b))
either_blocked true b = refl
either_blocked false b = refl

any_name_blocked_lem :
    (ns : List Name) → All IsValidated ns → any_name_blocked ns ≡ ok (not (all is_open ns))
unfolding any_name_blocked
any_name_blocked_lem [] h = refl
any_name_blocked_lem (n ∷ ns) h =
    rw (h.0, any_name_blocked_lem ns h.1) (either_blocked (is_open n) (all is_open ns))

mutual
  unfolding can_extract any_blocked any_argument_blocked

  carried_lem :
      (e : Expression) → All IsValidated (carried e) → can_extract e ≡ ok (all is_open (carried e))
  carried_lem (node id (name n)) h = rw h.0 (one_name n)
  carried_lem (node id (string s)) h = refl
  carried_lem (node id (number n)) h = refl
  carried_lem (node id (boolean b)) h = refl
  carried_lem (node id none_literal) h = refl
  carried_lem (node id (list items)) h = rw (carried_all_lem items h) (ap ok (not-not _))
  carried_lem (node id (call func arguments)) h =
      rw (carried_arguments_lem arguments h) (ap ok (not-not _))
  carried_lem (node id (binary_operation left right operator)) h = refl
  carried_lem (node id (unary_operation e operator)) h = refl
  carried_lem (node id (binary_comparison left right comparator)) h = refl
  carried_lem (node id (boolean_operation values _)) h = refl
  carried_lem (node id (attribute n a)) h = rw h.0 (one_name n)
  carried_lem (node id (format_string text names)) h =
      rw (any_name_blocked_lem names h) (ap ok (not-not _))

  carried_all_lem :
      (es : Expressions)
      → All IsValidated (carried_all es)
      → any_blocked es ≡ ok (not (all is_open (carried_all es)))
  carried_all_lem nil h = refl
  carried_all_lem (cons e es) h =
      let head = carried_lem e (All-left IsValidated (carried e) (carried_all es) h) in
      let rest = carried_all_lem es (All-right IsValidated (carried e) (carried_all es) h) in
      rw (head, rest, all-append is_open (carried e) (carried_all es)) (either_blocked _ _)

  carried_arguments_lem :
      (ks : Keywords)
      → All IsValidated (carried_arguments ks)
      → any_argument_blocked ks ≡ ok (not (all is_open (carried_arguments ks)))
  carried_arguments_lem end h = refl
  carried_arguments_lem (keyword k e ks) h =
      let head = carried_lem e (All-left IsValidated (carried e) (carried_arguments ks) h) in
      let rest =
        carried_arguments_lem ks (All-right IsValidated (carried e) (carried_arguments ks) h) in
      rw (head, rest, all-append is_open (carried e) (carried_arguments ks)) (either_blocked _ _)

decided :
    (literal kept marked blocked carries : Bool)
    → (if literal
        then ok true
        else if kept
        then ok false
        else if marked
        then ok true
        else (if blocked then ok false else if marked then ok true else ok carries) >>= λ b. ok b)
      ≡ ok (literal || (not kept && (marked || (not blocked && carries))))
decided true k m b c = refl
decided false true m b c = refl
decided false false true b c = refl
decided false false false true c = refl
decided false false false false c = refl

-- When the static types of the names that the value passes on were validated, `should_extract` does
-- not raise, and holds just of the assignments that are `ExtractLiteral`, and of those that are
-- neither local nor constant and either are `ExtractSecret` or have no secret annotation and pass
-- on no secret name. A name is passed on through lists, attributes, arguments of calls and format
-- strings, but through no operator.
pub should_extract_lem :
    (a : Assign)
    → All IsValidated (carried a.value)
    → should_extract a
      ≡ ok (
          annotated_as "ExtractLiteral" a.annotation
          || (not (starts_with_underscore a.target.identifier || is_constant a.value)
              && (annotated_as "ExtractSecret" a.annotation
                  || (not (annotation_blocks a.annotation) && all is_open (carried a.value)))))
unfolding should_extract assign_can_extract
should_extract_lem a h =
    rw (carried_lem a.value h)
      (decided _ (starts_with_underscore a.target.identifier || is_constant a.value) _ _ _)
