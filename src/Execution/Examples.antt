-- ===== src/Execution/Examples.antt =====
-- Values that are a truth or `None`, four nodes, and the theorems at them.
use trust_and_safety_demo.Base.{
  ℕ, arith, count, ◌++◌, ◌≡◌, refl, sym, ap, not, String, string_eq, nat_eq, Bool, true, false,
  Option, none, some, List, [], ◌∷◌, ◌++◌, map, all, any, All, filter, if◌then◌else◌, type_error,
}
use trust_and_safety_demo.Base.Dict.{put, get}
use trust_and_safety_demo.Execution.Values.{
  Attempt, returned, raised, exception, propagation, Values, Node, Resolved, less_than, is_in,
}
use trust_and_safety_demo.Execution.Nodes.{
  and_operator, or_operator, boolean_operation, binary_comparison,
}
use trust_and_safety_demo.Execution.Wrapping.{wrapped_batch_execution}
use trust_and_safety_demo.Execution.Rules.{RuleT, Effects, rules_of, execute_when_rules}
use trust_and_safety_demo.Execution.Operators.{entry, IsSettled, holds, boolean_operation_total}
use trust_and_safety_demo.Execution.Rulings.{outcomes_of, copies, execute_when_rules_lem}

instance abbrev truths : Values (Option Bool)
truths = record {
  none_value = none;
  is_none = λ v. elim v [ none ↦ true | some _ ↦ false ];
  truthy = λ v. elim v [ none ↦ false | some b ↦ b ];
  compare_with = λ c a b. raised (exception type_error);
  contained = λ a b. raised (exception type_error);
  list_items = λ v. none;
  convert = λ v. elim v [ none ↦ none | some b ↦ some (some (not b)) ];
}

abbrev node : ℕ → Node
node n = record { id = n; assigned_by = none; should_unwrap = false }

-- Node 1 is true, node 2 has failed, node 3 is `None`; 4 is a name that node 1 assigns.
abbrev values : Resolved (Option Bool)
values = (1, some (some true)) ∷ (2, none) ∷ (3, some none) ∷ []

abbrev named : Node
named = record { id = 4; assigned_by = some 1; should_unwrap = false }

-- A node that the graph unwraps; what is converted here is turned round.
abbrev wrapped : Node
wrapped = record { id = 1; assigned_by = none; should_unwrap = true }

abbrev nodes : List Node
nodes = node 2 ∷ named ∷ wrapped ∷ node 3 ∷ []

turned : (v : Option Bool) → some true ≡ v → (w : Option Bool) × (truths.convert v ≡ some w)
turned v e = (some false, ap (λ x. elim x [ none ↦ none | some b ↦ some (some (not b)) ]) (sym e))

settled : All (IsSettled values) nodes
unfolding entry get
settled = (
  record { result = none; found = refl; convertible = λ u. cc },
  (
    record { result = some (some true); found = refl; convertible = λ u. cc },
    (
      record {
        result = some (some true);
        found = refl;
        convertible = λ u v e. turned v (ground arith);
      },
      (record { result = some none; found = refl; convertible = λ u. cc }, tt),
    ),
  ),
)

comparison_test :
    (binary_comparison less_than (node 1) (node 3) values ≡ returned false)
    × (binary_comparison less_than (node 1) (node 2) values ≡ raised propagation)
    × (binary_comparison is_in (node 2) (node 1) values ≡ returned false)
unfolding binary_comparison get
comparison_test = (refl, refl, refl)

boolean_operation_total_example :
    (boolean_operation and_operator nodes values ≡ returned (all (holds values) nodes))
    × (boolean_operation or_operator nodes values ≡ returned (any (holds values) nodes))
boolean_operation_total_example = boolean_operation_total nodes values refl settled

abbrev check : ℕ → Bool → Attempt Bool
check udf v = if v then returned v else raised (exception type_error)

abbrev results : Attempt (List (Attempt Bool))
results = returned (returned true ∷ returned false ∷ raised propagation ∷ [])

wrapped_batch_test :
    wrapped_batch_execution check ((10, 1) ∷ (10, 2) ∷ (11, 3) ∷ []) results []
    ≡ (some true ∷ none ∷ none ∷ [], (record { error = type_error; node = 2 }) ∷ [])
unfolding wrapped_batch_execution
wrapped_batch_test = refl

abbrev rule : String → Bool → RuleT
rule name value = record { name = name; value = value; description = ""; features = [] }

abbrev rules : List RuleT
rules = rule "A" true ∷ rule "B" false ∷ []

-- Effect 1 is added twice, so it gets the passing rule twice.
abbrev effects : Effects
effects = record { rules = (1, []) ∷ []; added = [] }

execute_when_rules_test : execute_when_rules rules (some 1 ∷ some 2 ∷ some 1 ∷ []) effects ≡ (
  record {
    rules = (1, rule "A" true ∷ rule "A" true ∷ []) ∷ (2, rule "A" true ∷ []) ∷ [];
    added = 1 ∷ 2 ∷ 1 ∷ [];
  },
  returned tt,
)
unfolding execute_when_rules get put rules_of
execute_when_rules_test = refl

execute_when_rules_lem_example :
    (after : Effects) × (execute_when_rules rules (map some (1 ∷ 2 ∷ 1 ∷ [])) effects
      ≡ (after, returned tt))
    × (after.added ≡ [] ++ outcomes_of (filter (λ r. r.value) rules) (1 ∷ 2 ∷ 1 ∷ []))
    × ((n : ℕ)
        → rules_of n after.rules
          ≡ rules_of n effects.rules
            ++ copies (count n (1 ∷ 2 ∷ 1 ∷ [])) (filter (λ r. r.value) rules))
execute_when_rules_lem_example = execute_when_rules_lem rules (1 ∷ 2 ∷ 1 ∷ []) effects
