-- ===== src/Validators/Defs.antt =====
-- The nodes of a source in order of appearance, and the validators that loop over them.
use trust_and_safety_demo.Base.{
  ℕ, String, ◌==◌, string_eq, Bool, true, false, not, ◌&&◌, none, some, List, [], ◌∷◌, ◌++◌, map,
  if◌then◌else◌,
}
use trust_and_safety_demo.Base.Dict.{Dict, get, put}
use trust_and_safety_demo.Ast.Grammar.{
  Context, store, load, Name, Expression, node, name, list, call, binary_operation, unary_operation,
  binary_comparison, boolean_operation, attribute, format_string, Expressions, nil, cons, Keywords,
  end, keyword, Assign, Statement, assignment, call_statement,
}
use trust_and_safety_demo.Ast.Extracting.{starts_with_underscore}

-- The nodes that the validators look at: an assignment, a call with its function, and a name with
-- whether it is the function of a call.
pub data Visited : Type 0 where
  assigning : Assign → Visited
  calling : ℕ → Expression → Visited
  naming : Name → Bool → Visited

abbrev pub name_visits : List Name → List Visited
name_visits ns = map (λ n. naming n false) ns

-- `iter_nodes`
unfoldable mutual
  pub visits : Expression → List Visited
  visits (node id (name n)) = naming n false ∷ []
  visits (node id (list items)) = all_visits items
  visits (node id (call (node i (name n)) arguments)) =
      calling id (node i (name n)) ∷ naming n true ∷ keyword_visits arguments
  visits (node id (call func arguments)) =
      calling id func ∷ (visits func ++ keyword_visits arguments)
  visits (node id (binary_operation left right operator)) = visits left ++ visits right
  visits (node id (unary_operation e operator)) = visits e
  visits (node id (binary_comparison left right comparator)) = visits left ++ visits right
  visits (node id (boolean_operation es joiner)) = all_visits es
  visits (node id (attribute n a)) = naming n false ∷ []
  visits (node id (format_string text names)) = name_visits names
  visits (node id _) = []

  pub all_visits : Expressions → List Visited
  all_visits nil = []
  all_visits (cons e es) = visits e ++ all_visits es

  pub keyword_visits : Keywords → List Visited
  keyword_visits end = []
  keyword_visits (keyword k e ks) = visits e ++ keyword_visits ks

unfoldable pub statement_visits : Statement → List Visited
unfolding visits
statement_visits (assignment a) = assigning a ∷ naming a.target false ∷ visits a.value
statement_visits (call_statement e) = visits e

-- A source with its statements.
pub record ParsedSource : Type 0 where
  pub path : String
  pub statements : List Statement

unfoldable pub statements_visits : List Statement → List Visited
unfolding statement_visits
statements_visits [] = []
statements_visits (s ∷ ss) = statement_visits s ++ statements_visits ss

abbrev pub source_visits : ParsedSource → List Visited
source_visits s = statements_visits s.statements

abbrev pub is_stored : Context → Bool
is_stored store = true
is_stored load = false

-- What an error of the validators is about: a name, for `similar_in_scope` and the like also a
-- similar name, and the path of the source that is shown with it.
pub data Problem : Type 0 where
  not_unique local_not_unique unknown_identifier unknown_local loads_itself : String → Problem
  not_imported did_you_mean : String → String → Problem
  similar_in_scope similar : String → String → String → Problem

-- The stored names of a source that are local, or those that are not.
unfoldable pub stored_names : Bool → List Visited → List String
stored_names local [] = []
stored_names local (naming n func ∷ vs) =
    let rest = stored_names local vs in
    if is_stored n.context
      && (if local
          then starts_with_underscore n.identifier
          else not (starts_with_underscore n.identifier))
    then n.identifier ∷ rest
    else rest
stored_names local (assigning a ∷ vs) = stored_names local vs
stored_names local (calling id func ∷ vs) = stored_names local vs

-- The paths under an identifier; `stored_global_names` is a `defaultdict` of lists.
abbrev pub paths_under : String → Dict String (List String) → List String
paths_under x d = elim (get x d) [ none ↦ [] | some ps ↦ ps ]

unfoldable pub group_from :
    Dict String (List String) → List (String × String) → Dict String (List String)
group_from d [] = d
group_from d ((x, p) ∷ es) = group_from (put x (paths_under x d ++ p ∷ []) d) es

-- The global names that all sources store, with the paths of these.
unfoldable pub global_entries : List ParsedSource → List (String × String)
unfolding stored_names
global_entries [] = []
global_entries (s ∷ ss) =
    map (λ x. (x, s.path)) (stored_names false (source_visits s)) ++ global_entries ss

-- `stored_global_names`
unfoldable pub stored_global_names : List ParsedSource → Dict String (List String)
unfolding group_from global_entries
stored_global_names sources = group_from [] (global_entries sources)

-- `identifier_index`: the names that are stored once.
unfoldable pub singles : Dict String (List String) → Dict String String
singles [] = []
singles ((x, p ∷ []) ∷ d) = (x, p) ∷ singles d
singles ((x, _) ∷ d) = singles d

unfoldable pub duplicates : (String → Problem) → Dict String (List String) → List Problem
duplicates problem [] = []
duplicates problem ((x, p ∷ q ∷ ps) ∷ d) = problem x ∷ duplicates problem d
duplicates problem ((x, _) ∷ d) = duplicates problem d

-- The local names of each source.
unfoldable pub local_duplicates : List ParsedSource → List Problem
unfolding group_from stored_names duplicates
local_duplicates [] = []
local_duplicates (s ∷ ss) =
    duplicates local_not_unique
      (group_from [] (map (λ x. (x, s.path)) (stored_names true (source_visits s))))
    ++ local_duplicates ss

-- `UniqueStoredNames.run`: the index, and the errors.
unfoldable pub unique_stored_names : List ParsedSource → Dict String String × List Problem
unfolding stored_global_names singles duplicates local_duplicates
unique_stored_names sources =
    let names = stored_global_names sources in
    (singles names, duplicates not_unique names ++ local_duplicates sources)

-- `identifiers_by_source[path]`
unfoldable pub names_from : String → Dict String String → List String
names_from path [] = []
names_from path ((x, p) ∷ d) = if p == path then x ∷ names_from path d else names_from path d
