-- ===== src/Validators/Examples.antt =====
-- The validators on two small sources.
use trust_and_safety_demo.Base.{
  ℕ, String, string_eq, ◌==◌, if◌then◌else◌, ◌≡◌, refl, ◌&&◌, true, false, none, List, [], ◌∷◌,
  ◌++◌, elem, ◌⊎◌,
}
use trust_and_safety_demo.Base.Dict.{get, put}
use trust_and_safety_demo.Ast.Grammar.{
  store, load, unset, Name, Context, node, name, string, call, end, keyword, Assign, assignment,
  call_statement,
}
use trust_and_safety_demo.Validators.Defs.{
  Visited, calling, naming, assigning, ParsedSource, statements_visits, source_visits, loads_itself,
  not_imported, similar, unknown_local, not_unique, global_entries, unique_stored_names,
}
use trust_and_safety_demo.Validators.Checking.{unknown, variables_must_be_defined}
use trust_and_safety_demo.Validators.Index.{stored_in}
use trust_and_safety_demo.Validators.Defined.{stores, imported, variables_must_be_defined_lem}

abbrev named : String → Context → Name
named x c = record { identifier = x; context = c; path = "main.sml"; source_annotation = unset }

abbrev assign : String → String → Assign
assign x y = record {
  target = named x store;
  value = node 3 (name (named y load));
  annotation = none;
}

-- `Count = "1"`
abbrev features : ParsedSource
features = record {
  path = "features.sml";
  statements = assignment (record (assign "Count" "Count") { value = node 0 (string "1") }) ∷ [];
}

-- `Import(rules=["features.sml"])` and `Total = Count`
abbrev main_source : ParsedSource
main_source = record {
  path = "main.sml";
  statements =
      call_statement (
        node 1 (
          call (node 2 (name (named "Import" load)))
            (keyword "rules" (node 4 (string "features.sml")) end)))
      ∷ assignment (assign "Total" "Count")
      ∷ [];
}

abbrev imports : ℕ → List String
imports id = "features.sml" ∷ []

-- The distance of names that are the same is 0, else 4.
abbrev distance : String → String → ℕ
distance x y = if x == y then 0 else 4

abbrev before_count : List Visited
before_count =
    calling 1 (node 2 (name (named "Import" load)))
    ∷ naming (named "Import" load) true
    ∷ assigning (assign "Total" "Count")
    ∷ naming (named "Total" store) false
    ∷ []

no_problems : variables_must_be_defined distance imports [] (features ∷ main_source ∷ []) ≡ []
unfolding variables_must_be_defined statements_visits get put
no_problems = refl

main_visits : source_visits main_source ≡ before_count ++ naming (named "Count" load) false ∷ []
unfolding statements_visits
main_visits = refl

variables_must_be_defined_lem_example :
    (elem {A = String} "Count" [] ≡ true)
    ⊎ (elem "Count" (stores before_count) ≡ true)
    ⊎ ((path : String) × (elem path (imported imports before_count) ≡ true)
        × (stored_in "Count" (global_entries (features ∷ main_source ∷ [])) ≡ path ∷ []))
variables_must_be_defined_lem_example =
    variables_must_be_defined_lem distance imports [] (features ∷ []) [] main_source before_count []
      (named "Count" load) no_problems main_visits refl

-- Without the import, and where the name is loaded in its own assignment.
without_import :
    variables_must_be_defined distance (λ id. []) [] (features ∷ main_source ∷ [])
    ≡ not_imported "Count" "features.sml" ∷ []
unfolding variables_must_be_defined statements_visits get put
without_import = refl

own_name :
    variables_must_be_defined distance imports []
      (record features { statements = assignment (assign "Count" "Count") ∷ [] } ∷ [])
    ≡ loads_itself "Count" ∷ []
unfolding variables_must_be_defined statements_visits get put
own_name = refl

stored_twice : (unique_stored_names (features ∷ features ∷ [])).1 ≡ not_unique "Count" ∷ []
unfolding unique_stored_names statements_visits get put
stored_twice = refl

-- A name that is close to the name of another source, and one that is close to none.
abbrev near : String → String → ℕ
near x y = if x == "Countt" && y == "Count" then 1 else 4

misspelled :
    unknown near "Countt" ("Total" ∷ []) (("Count", "features.sml") ∷ [])
    ≡ similar "Countt" "Count" "features.sml"
unfolding unknown get
misspelled = refl

private_name :
    unknown distance "_Count" [] (("Count", "features.sml") ∷ []) ≡ unknown_local "_Count"
unfolding unknown get
private_name = refl
