-- ===== src/Executor/Examples.antt =====
-- A run over two sources, the second of which a node of the first enqueues, and witnesses of the
-- theorems.
use trust_and_safety_demo.Base.{
  ℕ, ◌≡◌, ◌≤◌, refl, Bool, true, false, Option, none, some, List, [], ◌∷◌, string_eq, nat_eq, ◌==◌,
  if◌then◌else◌, ok, err, key_error, Result, length,
}
use trust_and_safety_demo.Base.Dict.{get, put, keys}
use trust_and_safety_demo.Graph.Defs.{DependencyChain, chain_node, dependent_ids}
use trust_and_safety_demo.Sorter.Defs.{
  add, raise_count, link_all, get_nodeinfo, link, is_done, get_ready, prepare, done,
}
use trust_and_safety_demo.Graph.Examples.{
  sorted_sources, all_sources, two_sources, two_sources-compiled,
}
use trust_and_safety_demo.Execution.Values.{returned, raised, exception}
use trust_and_safety_demo.Executor.Defs.{ExecutionContext, new_context, Behaviour, execute}
use trust_and_safety_demo.Executor.Ending.{all_ids}
use trust_and_safety_demo.Executor.Liveness.{Finished, execute-terminates, execute-Finished}
use trust_and_safety_demo.Executor.Dependencies.{checked, execute-checked}

-- The third statement of `main` imports `extra`; its second fails.
unfoldable numbers : Behaviour ℕ
unfolding chain_node
numbers d c = (
  if chain_node d == 12 then "extra" ∷ [] else [],
  if chain_node d == 11 then raised (exception key_error) else returned (chain_node d),
)

-- What a run gives, if it is a context.
abbrev given : Option (Result (ExecutionContext ℕ)) → ExecutionContext ℕ
given none = new_context
given (some (err e)) = new_context
given (some (ok c)) = c

abbrev gives_context : Option (Result (ExecutionContext ℕ)) → Bool
gives_context none = false
gives_context (some (err e)) = false
gives_context (some (ok c)) = true

given_lem :
    (r : Option (Result (ExecutionContext ℕ))) → gives_context r ≡ true → r ≡ some (ok (given r))
given_lem none h = cc
given_lem (some (err e)) h = cc
given_lem (some (ok c)) h = refl

unfoldable last_context : ExecutionContext ℕ
last_context = given (execute numbers two_sources 4 "main")

ends_well : gives_context (execute numbers two_sources 4 "main") ≡ true
unfolding execute numbers two_sources get put add raise_count link_all dependent_ids get_nodeinfo
    link is_done get_ready prepare done
ends_well = refl

last_run : execute numbers two_sources 4 "main" ≡ some (ok last_context)
unfolding last_context
last_run = given_lem (execute numbers two_sources 4 "main") ends_well

unfoldable main_chains : List DependencyChain
unfolding two_sources get
main_chains = elim (get "main" two_sources.sorted_dependency_chains) [ none ↦ [] | some ds ↦ ds ]

main_found : get "main" two_sources.sorted_dependency_chains ≡ some main_chains
unfolding two_sources main_chains get put
main_found = refl

last_nodes : keys last_context.resolved_node_values ≡ 1 ∷ 2 ∷ 12 ∷ 10 ∷ 11 ∷ 20 ∷ []
unfolding last_context execute numbers two_sources get put add raise_count link_all dependent_ids
    get_nodeinfo link is_done get_ready prepare done
last_nodes = refl

out_of_fuel : execute numbers two_sources 1 "main" ≡ none
unfolding execute numbers two_sources get put add raise_count link_all dependent_ids get_nodeinfo
    link is_done get_ready prepare done
out_of_fuel = refl

execute-terminates_example :
    (c : ExecutionContext ℕ) × ((fuel : ℕ)
      → length (all_ids two_sources.sorted_dependency_chains) ≤ fuel
      → execute numbers two_sources fuel "main" ≡ some (ok c))
execute-terminates_example =
    execute-terminates numbers sorted_sources all_sources two_sources two_sources-compiled "main"
      refl

execute-Finished_example : Finished main_chains last_context
execute-Finished_example =
    execute-Finished numbers sorted_sources all_sources two_sources two_sources-compiled "main" refl
      4 last_context main_chains last_run main_found

execute-checked_example :
    execute numbers two_sources 4 "main" ≡ execute (checked numbers) two_sources 4 "main"
execute-checked_example =
    execute-checked numbers sorted_sources all_sources two_sources "main" 4 two_sources-compiled
      refl
