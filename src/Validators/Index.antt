-- ===== src/Validators/Index.antt =====
-- The index of `UniqueStoredNames` holds the names that are stored once.
use trust_and_safety_demo.Base.{
  String, ◌==◌, string_eq, ◌≡◌, refl, sym, ap, subst, ◌∙◌, true, false, none, some, List, [], ◌∷◌,
  ◌++◌, elem, IsDistinct, if◌then◌else◌, inl, inr, Bool-cases, arith,
}
use trust_and_safety_demo.Base.Dict.{
  Dict, get, put, keys, get-put, contains-elem, IsDistinct-keys-put,
}
use trust_and_safety_demo.Validators.Defs.{
  ParsedSource, paths_under, group_from, global_entries, stored_global_names, singles,
  unique_stored_names, names_from,
}

-- The paths of the sources that store a name, in order.
abbrev pub stored_in : String → List (String × String) → List String
stored_in x [] = []
stored_in x ((y, p) ∷ es) = if y == x then p ∷ stored_in x es else stored_in x es

pub append_assoc : (xs ys zs : List String) → (xs ++ ys) ++ zs ≡ xs ++ (ys ++ zs)
append_assoc [] ys zs = refl
append_assoc (x ∷ xs) ys zs = ap (λ l. x ∷ l) (append_assoc xs ys zs)

append_nil : (xs : List String) → xs ++ [] ≡ xs
append_nil [] = refl
append_nil (x ∷ xs) = ap (λ l. x ∷ l) (append_nil xs)

paths_under-put :
    (x y p : String) (d : Dict String (List String))
    → paths_under x (put y (paths_under y d ++ p ∷ []) d)
      ≡ (if y == x then paths_under x d ++ p ∷ [] else paths_under x d)
paths_under-put x y p d = elim (Bool-cases (y == x)) [
  | inl same ↦
      let e : y ≡ x = (string_eq.beq_iff y x).0 same in
      rw (paths_under, get-put y x (paths_under y d ++ p ∷ []) d, same)
        (ap (λ z. paths_under z d ++ p ∷ []) e)
  | inr other ↦ rw (paths_under, get-put y x (paths_under y d ++ p ∷ []) d, other) refl
]

paths_under-group_from :
    (x : String) (d : Dict String (List String)) (es : List (String × String))
    → paths_under x (group_from d es) ≡ paths_under x d ++ stored_in x es
unfolding group_from
paths_under-group_from x d [] = sym (append_nil (paths_under x d))
paths_under-group_from x d ((y, p) ∷ es) =
    paths_under-group_from x (put y (paths_under y d ++ p ∷ []) d) es ∙ elim (Bool-cases (y == x)) [
      | inl same ↦
          rw (paths_under-put x y p d, same)
            (append_assoc (paths_under x d) (p ∷ []) (stored_in x es))
      | inr other ↦ rw (paths_under-put x y p d, other) refl
    ]

group_from-IsDistinct :
    (d : Dict String (List String)) (es : List (String × String))
    → IsDistinct (keys d)
    → IsDistinct (keys (group_from d es))
unfolding group_from
group_from-IsDistinct d [] h = h
group_from-IsDistinct d ((y, p) ∷ es) h =
    group_from-IsDistinct (put y (paths_under y d ++ p ∷ []) d) es
      (IsDistinct-keys-put y (paths_under y d ++ p ∷ []) d h)

-- A name later in a dict with distinct keys is found there.
later :
    (x y : String) (ps : List String) (d : Dict String (List String)) {qs : List String}
    → elem y (keys d) ≡ false
    → get x d ≡ some qs
    → get x ((y, ps) ∷ d) ≡ some qs
unfolding get
later x y ps d h g = elim (Bool-cases (y == x)) [
  | inl same ↦
      let e : y ≡ x = (string_eq.beq_iff y x).0 same in
      let h' : elem x (keys d) ≡ false = subst (λ z. elem z (keys d) ≡ false) e h in
      absurd (ground (arith, contains-elem x d, h', g))
  | inr other ↦ rw other g
]

single_lem :
    (x path : String) (d : Dict String (List String))
    → IsDistinct (keys d)
    → elem x (names_from path (singles d)) ≡ true
    → get x d ≡ some (path ∷ [])
unfolding singles names_from get
single_lem x path [] h m = cc
single_lem x path ((y, []) ∷ d) h m = later x y [] d h.0 (single_lem x path d h.1 m)
single_lem x path ((y, p ∷ q ∷ ps) ∷ d) h m =
    later x y (p ∷ q ∷ ps) d h.0 (single_lem x path d h.1 m)
single_lem x path ((y, p ∷ []) ∷ d) h m = elim (Bool-cases (p == path)) [
  | inr elsewhere ↦ later x y (p ∷ []) d h.0 (single_lem x path d h.1 (rw elsewhere at m))
  | inl here ↦ elim (Bool-cases (y == x)) [
    | inl same ↦
        let e : p ≡ path = (string_eq.beq_iff p path).0 here in rw same (ap (λ z. some (z ∷ [])) e)
    | inr other ↦
        later x y (p ∷ []) d h.0 (single_lem x path d h.1 (ground (arith, m, here, other)))
  ]
]

-- A name of the index under a path is stored by that source, and once among all sources.
pub index_lem :
    (x path : String) (sources : List ParsedSource)
    → elem x (names_from path (unique_stored_names sources).0) ≡ true
    → stored_in x (global_entries sources) ≡ path ∷ []
unfolding unique_stored_names stored_global_names get
index_lem x path sources m =
    let d = group_from [] (global_entries sources) in
    let found = single_lem x path d (group_from-IsDistinct [] (global_entries sources) tt) m in
    let all_paths = paths_under-group_from x [] (global_entries sources) in
    sym all_paths ∙ ap (λ g. elim g [ none ↦ [] | some ps ↦ ps ]) found
