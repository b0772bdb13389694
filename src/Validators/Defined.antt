-- ===== src/Validators/Defined.antt =====
-- What is known of a program that has no errors.
use trust_and_safety_demo.Base.{
  ℕ, String, string_eq, ◌≡◌, refl, subst, beq_refl, true, false, List, [], ◌∷◌, ◌++◌, elem,
  elem-append, ◌⊎◌, inl, inr, if◌then◌else◌, Bool-cases, arith,
}
use trust_and_safety_demo.Base.Dict.{Dict}
use trust_and_safety_demo.Ast.Grammar.{Name}
use trust_and_safety_demo.Validators.Defs.{
  Visited, assigning, calling, naming, ParsedSource, source_visits, is_stored, Problem,
  global_entries, unique_stored_names, names_from,
}
use trust_and_safety_demo.Validators.Checking.{
  is_import, imported_names, defines, problems_at, check_visits, check_sources,
  variables_must_be_defined,
}
use trust_and_safety_demo.Validators.Index.{stored_in, append_assoc, index_lem}

-- The names that the nodes store, and the sources that they import.
abbrev pub stores : List Visited → List String
stores [] = []
stores (naming n func ∷ vs) =
    let rest = stores vs in if is_stored n.context then n.identifier ∷ rest else rest
stores (assigning a ∷ vs) = stores vs
stores (calling id func ∷ vs) = stores vs

module _ (imports : ℕ → List String) where
  abbrev pub imported : List Visited → List String
  imported [] = []
  imported (calling id func ∷ vs) =
      let rest = imported vs in if is_import func then imports id ++ rest else rest
  imported (assigning a ∷ vs) = imported vs
  imported (naming n func ∷ vs) = imported vs

problems_left : (xs ys : List Problem) → xs ++ ys ≡ [] → xs ≡ []
problems_left [] ys h = refl
problems_left (x ∷ xs) ys h = cc

problems_right : (xs ys : List Problem) → xs ++ ys ≡ [] → ys ≡ []
problems_right [] ys h = h
problems_right (x ∷ xs) ys h = cc

module _ (imports : ℕ → List String) (index : Dict String String) where
  -- The names that a list of nodes adds.
  abbrev defines_all : List Visited → List String
  defines_all [] = []
  defines_all (v ∷ vs) = defines imports index v ++ defines_all vs

  known_lem :
      (distance : String → String → ℕ) (known : List String) (before after : List Visited)
      (n : Name)
      → is_stored n.context ≡ false
      → check_visits distance imports index known (before ++ naming n false ∷ after) ≡ []
      → elem n.identifier (known ++ defines_all before) ≡ true
  unfolding check_visits problems_at
  known_lem distance known [] after n c h = elim (Bool-cases (elem n.identifier known)) [
    | inl there ↦ rw (elem-append, there) refl
    | inr missing ↦
        let none_here : problems_at distance imports index known (naming n false) ≡ [] =
          problems_left _ _ h in
        absurd (ground (arith, missing, c, none_here))
  ]
  known_lem distance known (v ∷ before) after n c h =
      let rest : check_visits distance imports index (known ++ defines imports index v)
            (before ++ naming n false ∷ after)
          ≡ [] =
        problems_right (problems_at distance imports index known v) _ h in
      subst (λ l. elem n.identifier l ≡ true)
        (append_assoc known (defines imports index v) (defines_all before))
        (known_lem distance (known ++ defines imports index v) before after n c rest)

elem-both :
    (x : String) (xs ys : List String)
    → elem x (xs ++ ys) ≡ true
    → (elem x xs ≡ true) ⊎ (elem x ys ≡ true)
elem-both x xs ys h = elim (Bool-cases (elem x xs)) [
  | inl there ↦ inl there
  | inr missing ↦ inr (ground (arith, elem-append x xs ys, h, missing))
]

elem-left : (x : String) (xs ys : List String) → elem x xs ≡ true → elem x (xs ++ ys) ≡ true
elem-left x xs ys h = ground (arith, elem-append x xs ys, h)

elem-right : (x : String) (xs ys : List String) → elem x ys ≡ true → elem x (xs ++ ys) ≡ true
elem-right x xs ys h = ground (arith, elem-append x xs ys, h)

module _ (imports : ℕ → List String) (index : Dict String String) where
  -- A path among those that holds the name.
  abbrev Brought : String → List String → Type 0
  Brought x paths =
      (path : String) × (elem path paths ≡ true) × (elem x (names_from path index) ≡ true)

  imported_lem :
      (x : String) (paths : List String)
      → elem x (imported_names imports index paths) ≡ true
      → Brought x paths
  unfolding imported_names
  imported_lem x [] h = cc
  imported_lem x (p ∷ ps) h = elim (elem-both x (names_from p index) _ h) [
    | inl here ↦ (p, rw (beq_refl p) refl, here)
    | inr there ↦
        let found = imported_lem x ps there in
        (found.0, elem-right found.0 (p ∷ []) ps found.1, found.2)
  ]

  Brought-left : (x : String) (ps qs : List String) → Brought x ps → Brought x (ps ++ qs)
  Brought-left x ps qs b = (b.0, elem-left b.0 ps qs b.1, b.2)

  Brought-right : (x : String) (ps qs : List String) → Brought x qs → Brought x (ps ++ qs)
  Brought-right x ps qs b = (b.0, elem-right b.0 ps qs b.1, b.2)

  -- Whatever the nodes add, they store, or a source that they import holds it.
  added_lem :
      (x : String) (vs : List Visited)
      → elem x (defines_all imports index vs) ≡ true
      → (elem x (stores vs) ≡ true) ⊎ Brought x (imported imports vs)
  unfolding defines
  added_lem x [] h = cc
  added_lem x (assigning a ∷ vs) h = added_lem x vs h
  added_lem x (naming n func ∷ vs) h =
      elim (elem-both x (defines imports index (naming n func)) (defines_all imports index vs) h) [
        | inl here ↦ inl (ground (arith, here))
        | inr there ↦ elim (added_lem x vs there) [
          | inl stored ↦ inl (ground (arith, stored))
          | inr brought ↦ inr brought
        ]
      ]
  added_lem x (calling id func ∷ vs) h = elim (Bool-cases (is_import func)) [
    | inr other ↦ rw other (added_lem x vs (rw other at h))
    | inl same ↦
        let both : elem x
              (imported_names imports index (imports id) ++ defines_all imports index vs)
            ≡ true =
          rw same at h in
        rw same (elim (elem-both x (imported_names imports index (imports id)) _ both) [
          | inl here ↦ inr (Brought-left x (imports id) _ (imported_lem x (imports id) here))
          | inr there ↦ elim (added_lem x vs there) [
            | inl stored ↦ inl stored
            | inr brought ↦ inr (Brought-right x (imports id) _ brought)
          ]
        ])
  ]

-- A source in which an error would be found.
source_lem :
    (distance : String → String → ℕ) (imports : ℕ → List String) (index : Dict String String)
    (global_names : List String) (front back : List ParsedSource) (s : ParsedSource)
    → check_sources distance imports index global_names (front ++ s ∷ back) ≡ []
    → check_visits distance imports index global_names (source_visits s) ≡ []
unfolding check_sources
source_lem distance imports index global_names [] back s h = problems_left _ _ h
source_lem distance imports index global_names (f ∷ front) back s h =
    source_lem distance imports index global_names front back s
      (problems_right (check_visits distance imports index global_names (source_visits f)) _ h)

-- If `VariablesMustBeDefined` finds no error in the sources, then each name that a source loads,
-- other than as the function of a call, is one of the given names, or is stored by a node of the
-- source that comes before, or a call of Import that comes before imports a source, and this source
-- is the only one that stores the name, and stores it once.
pub variables_must_be_defined_lem :
    (distance : String → String → ℕ) (imports : ℕ → List String) (global_names : List String)
    (front back : List ParsedSource) (s : ParsedSource) (before after : List Visited) (n : Name)
    → variables_must_be_defined distance imports global_names (front ++ s ∷ back) ≡ []
    → source_visits s ≡ before ++ naming n false ∷ after
    → is_stored n.context ≡ false
    → (elem n.identifier global_names ≡ true)
      ⊎ (elem n.identifier (stores before) ≡ true)
      ⊎ ((path : String) × (elem path (imported imports before) ≡ true)
          × (stored_in n.identifier (global_entries (front ++ s ∷ back)) ≡ path ∷ []))
unfolding variables_must_be_defined
variables_must_be_defined_lem distance imports global_names front back s before after n h e c =
    let index = (unique_stored_names (front ++ s ∷ back)).0 in
    let none_here = source_lem distance imports index global_names front back s h in
    let none_there : check_visits distance imports index global_names
          (before ++ naming n false ∷ after)
        ≡ [] =
      subst (λ vs. check_visits distance imports index global_names vs ≡ []) e none_here in
    elim (elem-both n.identifier global_names _
      (known_lem imports index distance global_names before after n c none_there)) [
        | inl given ↦ inl given
        | inr added ↦ elim (added_lem imports index n.identifier before added) [
          | inl stored ↦ inr (inl stored)
          | inr b ↦ inr (inr (b.0, b.1, index_lem n.identifier b.0 (front ++ s ∷ back) b.2))
        ]
      ]
