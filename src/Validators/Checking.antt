-- ===== src/Validators/Checking.antt =====
-- `VariablesMustBeDefined`: which names are known where they are loaded.
use trust_and_safety_demo.Base.{
  ℕ, suc, String, ◌==◌, string_eq, leb, ltb, Bool, false, not, ◌&&◌, ◌||◌, Option, none, some, List,
  [], ◌∷◌, ◌++◌, elem, if◌then◌else◌,
}
use trust_and_safety_demo.Base.Dict.{Dict, get, keys}
use trust_and_safety_demo.Ast.Grammar.{Expression, node, name}
use trust_and_safety_demo.Ast.Extracting.{starts_with_underscore}
use trust_and_safety_demo.Validators.Defs.{
  visits, Visited, assigning, calling, naming, ParsedSource, source_visits, is_stored, Problem,
  unknown_identifier, unknown_local, loads_itself, not_imported, did_you_mean, similar_in_scope,
  similar, unique_stored_names, names_from,
}

abbrev text_length : String → ℕ
text_length String.[] = 0
text_length (String.◌∷◌ c s) = suc (text_length s)

-- `is_import`
abbrev pub is_import : Expression → Bool
is_import (node id (name n)) = n.identifier == "Import"
is_import (node id _) = false

-- The loads of an identifier; here the function of a call counts.
unfoldable pub loads_of : String → List Visited → List Problem
loads_of x [] = []
loads_of x (naming n func ∷ vs) =
    let rest = loads_of x vs in
    if not (is_stored n.context) && n.identifier == x then loads_itself x ∷ rest else rest
loads_of x (assigning a ∷ vs) = loads_of x vs
loads_of x (calling id func ∷ vs) = loads_of x vs

-- `get_closest_string_within_threshold`, with its default threshold; how far a name is from another
-- in lower case (the package Levenshtein) is a parameter.
module _ (distance : String → String → ℕ) where
  -- `min` with the distance as its key
  unfoldable pub nearest : String → String → List String → String
  nearest x best [] = best
  nearest x best (c ∷ cs) = nearest x (if ltb (distance x c) (distance x best) then c else best) cs

  unfoldable pub get_closest_string_within_threshold : String → List String → Option String
  unfolding nearest
  get_closest_string_within_threshold x [] = none
  get_closest_string_within_threshold x (c ∷ cs) =
      let closest = nearest x c cs in
      if leb (text_length x) 3
      then none
      else if leb (distance x closest) 3
      then some closest
      else none

  -- `closest_name`; the names are not empty.
  unfoldable pub closest_name : String → List String → Dict String String → Option String
  unfolding get_closest_string_within_threshold
  closest_name x known index = elim (get_closest_string_within_threshold x known) [
    | some c ↦ some c
    | none ↦ get_closest_string_within_threshold x (keys index)
  ]

  -- The error at a name that is not known.
  unfoldable pub unknown : String → List String → Dict String String → Problem
  unfolding closest_name
  unknown x known index = elim (get x index) [
    | some found ↦ not_imported x found
    | none ↦ elim (closest_name x known index) [
      | none ↦ if starts_with_underscore x then unknown_local x else unknown_identifier x
      | some c ↦ elim (get c index) [
        | none ↦ did_you_mean x c
        | some found ↦ if elem c known then similar_in_scope x c found else similar x c found
      ]
    ]
  ]

-- The sources that the Import of a call imports are a parameter, by the identity of the call.
module _ (imports : ℕ → List String) (index : Dict String String) where
  unfoldable pub imported_names : List String → List String
  unfolding names_from
  imported_names [] = []
  imported_names (p ∷ ps) = names_from p index ++ imported_names ps

  -- What a node adds to `known_identifiers`.
  unfoldable pub defines : Visited → List String
  unfolding imported_names
  defines (assigning a) = []
  defines (calling id func) = if is_import func then imported_names (imports id) else []
  defines (naming n func) = if is_stored n.context then n.identifier ∷ [] else []

module _ (distance : String → String → ℕ) (imports : ℕ → List String)
    (index : Dict String String) where
  -- The errors at a node.
  unfoldable pub problems_at : List String → Visited → List Problem
  unfolding visits loads_of unknown
  problems_at known (calling id func) = []
  problems_at known (naming n func) =
      if is_stored n.context || func || elem n.identifier known
      then []
      else unknown distance n.identifier known index ∷ []
  problems_at known (assigning a) = loads_of a.target.identifier (visits a.value)

  -- The loop of `VariablesMustBeDefined.run` over the nodes of a source.
  unfoldable pub check_visits : List String → List Visited → List Problem
  unfolding defines problems_at
  check_visits known [] = []
  check_visits known (v ∷ vs) =
      problems_at known v ++ check_visits (known ++ defines imports index v) vs

  unfoldable pub check_sources : List String → List ParsedSource → List Problem
  unfolding check_visits
  check_sources global_names [] = []
  check_sources global_names (s ∷ ss) =
      check_visits global_names (source_visits s) ++ check_sources global_names ss

-- `VariablesMustBeDefined.run`, with the index of `UniqueStoredNames`.
unfoldable pub variables_must_be_defined :
    (String → String → ℕ) → (ℕ → List String) → List String → List ParsedSource → List Problem
unfolding unique_stored_names check_sources
variables_must_be_defined distance imports global_names sources =
    check_sources distance imports (unique_stored_names sources).0 global_names sources
