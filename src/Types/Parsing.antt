-- ===== src/Types/Parsing.antt =====
-- Which annotations have a type checker or a complaint, without another exception.
use trust_and_safety_demo.Base.{
  ℕ, suc, String, ◌==◌, string_eq, ◌≡◌, refl, ap, ◌⊎◌, inl, inr, Bool, true, false, ◌||◌, Option,
  none, some, List, [], ◌∷◌, if◌then◌else◌, elem, length, assertion_error, Option-cases, arith,
}
use trust_and_safety_demo.Ast.Grammar.{
  Annotation, simple, with_variants, Variants, no_variants, variant,
}
use trust_and_safety_demo.Types.Defs.{Scalar}
use trust_and_safety_demo.Types.Checking.{Wrapper, Checker, instance_of, union_of, wrapped}
use trust_and_safety_demo.Types.Converting.{
  Complaint, unknown_type, generic_without_variants, unknown_generic, union_of_one,
  unexpected_variants, entity_id_type, Conversion, converted, complaint, exception, ◌>>=◌, Generic,
  union_generic, optional_generic, list_generic, entity_generic, wrapper_generic, get_generic,
  get_non_generic, count_variants, convert_simple, convert_union_items, new_union, parse_union,
  parse_optional, parse_list, parse_entity, parse_generic, convert, parse_wrapper,
}

-- Annotations without generics inside generics, but for a generic alone inside a wrapper, and with
-- at least one variant each.
mutual
  pub data IsPlain : Annotation → Type 0 where
    name : (identifier : String) → IsPlain (simple identifier)
    names :
        (identifier : String) (first : String) {vs : Variants}
        → AreNames vs
        → IsPlain (with_variants identifier (variant (simple first) vs))
    inside :
        (identifier : String) {a : Annotation} (w : Wrapper)
        → get_generic identifier ≡ some (wrapper_generic w)
        → IsPlain a
        → IsPlain (with_variants identifier (variant a no_variants))

  pub data AreNames : Variants → Type 0 where
    no_more : AreNames no_variants
    and_name :
        (identifier : String) {vs : Variants}
        → AreNames vs
        → AreNames (variant (simple identifier) vs)

-- A conversion that comes to its result or to a complaint.
abbrev pub Answers {ℓ} : {A : Type ℓ} → Conversion A → Type ℓ
Answers {A} r = ((a : A) × (r ≡ converted a)) ⊎ ((c : Complaint) × (r ≡ complaint c))

bind-Answers {ℓ κ} :
    {A : Type ℓ} {B : Type κ} (r : Conversion A) (f : A → Conversion B)
    → Answers r
    → ((a : A) → Answers (f a))
    → Answers (r >>= f)
bind-Answers (converted a) f h k = k a
bind-Answers (complaint c) f h k = inr (c, refl)
bind-Answers (exception e) f (inl (a, h)) k = cc
bind-Answers (exception e) f (inr (c, h)) k = cc

if-Answers {ℓ} :
    {A : Type ℓ} (b : Bool) (r t : Conversion A)
    → Answers r
    → Answers t
    → Answers (if b then r else t)
if-Answers true r t h k = h
if-Answers false r t h k = k

simple-Answers : (identifier : String) → Answers (convert_simple (simple identifier))
unfolding convert_simple
simple-Answers identifier = elim (Option-cases (get_non_generic identifier)) [
  | inr (s, found) ↦ inl (s, rw (found, convert_simple) refl)
  | inl missing ↦ elim (Option-cases (get_generic identifier)) [
    | inr (g, generic) ↦
        inr (generic_without_variants identifier, rw (missing, generic, convert_simple) refl)
    | inl unknown ↦ inr (unknown_type identifier, rw (missing, unknown, convert_simple) refl)
  ]
]

-- The items of a union are as many as its variants.
abbrev Counted : ℕ → Conversion (List Scalar) → Type 0
Counted n r =
    ((ss : List Scalar) × (r ≡ converted ss) × (length ss ≡ n))
    ⊎ ((c : Complaint) × (r ≡ complaint c))

count_one :
    {n : ℕ} (b : Bool) (c : Complaint) (r : Conversion Scalar) (rest : Conversion (List Scalar))
    → Answers r
    → Counted n rest
    → Counted (suc n) (if b then complaint c else (r >>= λ s. rest >>= λ ss. converted (s ∷ ss)))
count_one true c r rest h k = inr (c, refl)
count_one false c (complaint d) rest h k = inr (d, refl)
count_one false c (exception e) rest (inl (s, h)) k = cc
count_one false c (exception e) rest (inr (d, h)) k = cc
count_one false c (converted s) (complaint d) h k = inr (d, refl)
count_one false c (converted s) (exception e) h (inl (ss, k, l)) = cc
count_one false c (converted s) (exception e) h (inr (d, k)) = cc
count_one false c (converted s) (converted ss) h (inl (ts, k, l)) =
    let e : ss ≡ ts = cc in inl (s ∷ ss, refl, rw e (omega (arith, l)))
count_one false c (converted s) (converted ss) h (inr (d, k)) = cc

count_items :
    (seen : List String) {vs : Variants}
    → AreNames vs
    → Counted (count_variants vs) (convert_union_items seen vs)
unfolding convert_union_items
count_items seen no_more = inl ([], refl, refl)
count_items seen (and_name identifier {vs} ns) =
    count_one (elem identifier seen) _ _ _ (simple-Answers identifier)
      (count_items (identifier ∷ seen) ns)

new_union-Answers :
    (n : ℕ) (r : Conversion (List Scalar)) → Counted (suc (suc n)) r → Answers (r >>= new_union)
unfolding new_union
new_union-Answers n (complaint d) h = inr (d, refl)
new_union-Answers n (exception e) (inl (ss, k, l)) = cc
new_union-Answers n (exception e) (inr (d, k)) = cc
new_union-Answers n (converted []) (inl (ss, k, l)) =
    let e : [] ≡ ss = cc in absurd (ground (arith, l, ap length e))
new_union-Answers n (converted (s ∷ [])) (inl (ss, k, l)) =
    let e : s ∷ [] ≡ ss = cc in absurd (ground (arith, l, ap length e))
new_union-Answers n (converted (s ∷ t ∷ ss)) h = inl (union_of (s ∷ t ∷ ss), refl)
new_union-Answers n (converted []) (inr (d, k)) = cc
new_union-Answers n (converted (s ∷ [])) (inr (d, k)) = cc

optional-Answers :
    (first : String) {vs : Variants}
    → AreNames vs
    → Answers (parse_optional (variant (simple first) vs))
unfolding parse_optional
optional-Answers first no_more =
    bind-Answers (convert_simple (simple first)) _ (simple-Answers first) (λ s. inl (_, refl))
optional-Answers first (and_name identifier ns) = inr (_, refl)

union-Answers :
    (first : String) {vs : Variants}
    → AreNames vs
    → Answers (parse_union (variant (simple first) vs))
unfolding parse_union
union-Answers first no_more = inr (union_of_one, refl)
union-Answers first (and_name identifier {vs} ns) =
    new_union-Answers (count_variants vs)
      (convert_union_items [] (variant (simple first) (variant (simple identifier) vs)))
      (count_items [] (and_name first (and_name identifier ns)))

list-Answers :
    (first : String) {vs : Variants}
    → AreNames vs
    → Answers (parse_list (variant (simple first) vs))
unfolding parse_list
list-Answers first no_more =
    bind-Answers (convert_simple (simple first)) _ (simple-Answers first) (λ s. inl (_, refl))
list-Answers first (and_name identifier ns) = inr (unexpected_variants, refl)

entity-Answers :
    (first : String) {vs : Variants}
    → AreNames vs
    → Answers (parse_entity (variant (simple first) vs))
unfolding parse_entity
entity-Answers first no_more =
    if-Answers (first == "str" || first == "int") _ _
      (bind-Answers (convert_simple (simple first)) _ (simple-Answers first) (λ s. inl (_, refl)))
      (inr (entity_id_type first, refl))
entity-Answers first (and_name identifier ns) = inr (_, refl)

generic-Answers :
    (identifier : String) (first : String) {vs : Variants} (inner : Conversion Checker)
    (g : Option Generic)
    → AreNames vs
    → Answers inner
    → Answers (parse_generic identifier (variant (simple first) vs) inner g)
unfolding parse_generic
generic-Answers identifier first inner none ns h = inr (unknown_generic identifier, refl)
generic-Answers identifier first inner (some union_generic) ns h = union-Answers first ns
generic-Answers identifier first inner (some optional_generic) ns h = optional-Answers first ns
generic-Answers identifier first inner (some list_generic) ns h = list-Answers first ns
generic-Answers identifier first inner (some entity_generic) ns h = entity-Answers first ns
generic-Answers identifier first inner (some (wrapper_generic w)) ns h =
    bind-Answers inner _ h (λ c. inl (wrapped w c, refl))

convert_simple-Answers : (identifier : String) → Answers (convert (simple identifier))
unfolding convert
convert_simple-Answers identifier =
    bind-Answers (convert_simple (simple identifier)) _ (simple-Answers identifier)
      (λ s. inl (instance_of s, refl))

wrapper-Answers :
    (generic : String) (first : String) {vs : Variants}
    → AreNames vs
    → Answers (parse_wrapper generic (variant (simple first) vs))
unfolding parse_wrapper
wrapper-Answers generic first no_more = convert_simple-Answers first
wrapper-Answers generic first (and_name identifier ns) = inr (_, refl)

-- An annotation that holds no generic inside another, but for one that stands alone inside a
-- wrapper such as `Secret`, and at least one variant in each generic, gives a type checker or an
-- AnnotationConversionError, and no other exception.
pub convert_total :
    {a : Annotation}
    → IsPlain a
    → ((c : Checker) × (convert a ≡ converted c)) ⊎ ((e : Complaint) × (convert a ≡ complaint e))
unfolding convert parse_wrapper
convert_total (name identifier) = convert_simple-Answers identifier
convert_total (names identifier first {vs} ns) =
    generic-Answers identifier first _ (get_generic identifier) ns
      (wrapper-Answers identifier first ns)
convert_total (inside identifier {a} w g h) =
    rw (g, parse_generic)
      (bind-Answers (convert a) _ (convert_total h) (λ c. inl (wrapped w c, refl)))

-- A generic inside `Optional` raises the AssertionError of a type constructor that only takes names.
pub convert-nested :
    (identifier : String) (vs : Variants)
    → convert (with_variants "Optional" (variant (with_variants identifier vs) no_variants))
      ≡ exception assertion_error
unfolding convert get_generic parse_generic parse_optional convert_simple
convert-nested identifier vs = refl
