-- ===== src/Types/Flat.antt =====
-- Types without generics: when one is compatible with another, and what its objects are.
use trust_and_safety_demo.Base.{
  ◌≡◌, refl, ap, ◌∙◌, Bool, true, false, not, ◌||◌, ◌&&◌, ◌==◌, List, [], ◌∷◌, map, filter, all,
  any, if◌then◌else◌, inl, inr, Bool-cases, arith,
}
use trust_and_safety_demo.Types.Defs.{
  Scalar, str, bool, int, float, scalar_eq, Class, builtin, Typing, Objects, dedupe, is_subclass,
  scalar_beq_iff,
}
use trust_and_safety_demo.Types.Checking.{classes, types_of, instance_check}
use trust_and_safety_demo.Types.Evaluating.{
  Outcome, answer, Candidate, class, union_candidates, get_type_candidates, subclass, accepts,
  is_acceptable_candidate, all_acceptable, compare_candidates, compare_plain, is_compatible,
  has_parameters, any_has_parameters,
}

-- Whether the objects of a class may stand for those of another.
abbrev pub is_subtype : Scalar → Scalar → Bool
unfolding is_subclass
is_subtype s t = (is_subclass s t && not (t == int && s == bool)) || (t == float && s == int)

abbrev pub candidates : List Scalar → List Candidate
candidates ss = map (λ s. class (builtin s)) ss

union_candidates_lem : (ss : List Scalar) → union_candidates (types_of ss) ≡ answer (candidates ss)
unfolding union_candidates
union_candidates_lem [] = refl
union_candidates_lem (s ∷ ss) = rw (union_candidates_lem ss) refl

pub get_type_candidates-classes :
    (ss : List Scalar) → get_type_candidates (classes ss) ≡ answer (candidates ss)
unfolding get_type_candidates classes
get_type_candidates-classes [] = union_candidates_lem []
get_type_candidates-classes (s ∷ []) = refl
get_type_candidates-classes (s ∷ t ∷ ss) = union_candidates_lem (s ∷ t ∷ ss)

types_have_no_parameters : (ss : List Scalar) → any_has_parameters (types_of ss) ≡ false
unfolding any_has_parameters has_parameters
types_have_no_parameters [] = refl
types_have_no_parameters (s ∷ ss) = types_have_no_parameters ss

pub classes_have_no_parameters : (ss : List Scalar) → has_parameters (classes ss) ≡ false
unfolding has_parameters classes
classes_have_no_parameters [] = refl
classes_have_no_parameters (s ∷ []) = refl
classes_have_no_parameters (s ∷ t ∷ ss) = types_have_no_parameters (s ∷ t ∷ ss)

either :
    (b : Bool) {r : Bool} (rest : Outcome Bool)
    → rest ≡ answer r
    → (if b then answer true else rest) ≡ answer (b || r)
either true rest h = refl
either false rest h = h

module _ (user : Class → Class → Bool) where
  is_acceptable_lem :
      (s : Scalar) (ts : List Scalar)
      → is_acceptable_candidate user (class (builtin s)) (candidates ts)
        ≡ answer (any (λ t. is_subtype s t) ts)
  unfolding is_acceptable_candidate accepts subclass is_subclass
  is_acceptable_lem s [] = refl
  is_acceptable_lem s (t ∷ ts) = either (is_subtype s t) _ (is_acceptable_lem s ts)

  all_acceptable_lem :
      (ss ts : List Scalar)
      → all_acceptable user (candidates ss) (candidates ts)
        ≡ answer (all (λ s. any (λ t. is_subtype s t) ts) ss)
  unfolding all_acceptable
  all_acceptable_lem [] ts = refl
  all_acceptable_lem (s ∷ ss) ts = elim (Bool-cases (any (λ t. is_subtype s t) ts)) [
    | inl h ↦ rw (is_acceptable_lem s ts, h) (all_acceptable_lem ss ts)
    | inr h ↦ rw (is_acceptable_lem s ts, h) refl
  ]

  compare_lem :
      (ss ts : List Scalar)
      → compare_candidates user (classes ss) (classes ts)
        ≡ answer (all (λ s. any (λ t. is_subtype s t) ts) ss)
  unfolding compare_candidates
  compare_lem ss ts =
      rw (get_type_candidates-classes ss, get_type_candidates-classes ts) (all_acceptable_lem ss ts)

  compare_plain_lem :
      (t : Typing) (ts : List Scalar)
      → compare_plain user t (classes ts) ≡ compare_candidates user t (classes ts)
  unfolding compare_plain classes
  compare_plain_lem t [] = refl
  compare_plain_lem t (s ∷ []) = refl
  compare_plain_lem t (s ∷ u ∷ ts) = refl

  is_compatible_plain :
      (ss ts : List Scalar)
      → is_compatible user (classes ss) (classes ts) ≡ compare_plain user (classes ss) (classes ts)
  unfolding is_compatible classes
  is_compatible_plain [] [] = refl
  is_compatible_plain [] (t ∷ []) = refl
  is_compatible_plain [] (t ∷ u ∷ ts) = refl
  is_compatible_plain (s ∷ []) [] = refl
  is_compatible_plain (s ∷ []) (t ∷ []) = refl
  is_compatible_plain (s ∷ []) (t ∷ u ∷ ts) = refl
  is_compatible_plain (s ∷ r ∷ ss) [] = refl
  is_compatible_plain (s ∷ r ∷ ss) (t ∷ []) = refl
  is_compatible_plain (s ∷ r ∷ ss) (t ∷ u ∷ ts) = refl

  pub is_compatible-classes :
      (ss ts : List Scalar)
      → is_compatible user (classes ss) (classes ts)
        ≡ answer (all (λ s. any (λ t. is_subtype s t) ts) ss)
  is_compatible-classes ss ts =
      is_compatible_plain ss ts ∙ (compare_plain_lem (classes ss) ts ∙ compare_lem ss ts)

any-filter :
    (p : Scalar → Bool) (s : Scalar) (ss : List Scalar)
    → (p s || any p (filter (λ t. not (t == s)) ss)) ≡ (p s || any p ss)
any-filter p s [] = refl
any-filter p s (t ∷ ss) = elim (Bool-cases (t == s)) [
  | inl same ↦
      let eq : t ≡ s = (scalar_beq_iff t s).0 same in
      let again : p t ≡ p s = ap p eq in rw (same, again) (ground (arith, any-filter p s ss))
  | inr other ↦ rw other (ground (arith, any-filter p s ss))
]

pub any-dedupe : (p : Scalar → Bool) (ss : List Scalar) → any p (dedupe ss) ≡ any p ss
any-dedupe p [] = refl
any-dedupe p (s ∷ ss) = any-filter p s (dedupe ss) ∙ ap (λ b. p s || b) (any-dedupe p ss)

module _ {V : Type 0} ⦃o : Objects V⦄ where
  pub subtype_sound :
      (s t : Scalar) (v : V)
      → is_subtype s t ≡ true
      → instance_check s v ≡ true
      → instance_check t v ≡ true
  unfolding instance_check is_subclass
  subtype_sound str str v h c = c
  subtype_sound _ _ v h c = ground arith
