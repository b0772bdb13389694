-- ===== src/Execution/Rules.antt =====
-- `Rule.execute` and `WhenRules`.
use trust_and_safety_demo.Base.{
  ℕ, String, Bool, true, false, Option, none, some, List, [], ◌∷◌, ◌++◌, filter, all, if◌then◌else◌,
  type_error, assertion_error,
}
use trust_and_safety_demo.Base.Dict.{Dict, get, put}
use trust_and_safety_demo.Base.{string_eq, nat_eq}
use trust_and_safety_demo.Execution.Values.{
  Attempt, returned, raised, exception, ◌>>=◌, Values, Node, Resolved, resolved,
}

pub record RuleT : Type 0 where
  pub name : String
  pub value : Bool
  pub description : String
  pub features : Dict String String

-- The effects of a run, by the objects that they are: the rules of each object, and the context's
-- list of those that were added.
pub record Effects : Type 0 where
  pub rules : Dict ℕ (List RuleT)
  pub added : List ℕ

unfoldable pub rules_of : ℕ → Dict ℕ (List RuleT) → List RuleT
rules_of effect d = elim (get effect d) [ none ↦ [] | some rules ↦ rules ]

-- The description in the syntax tree: a text, a format string with its names, or something else.
pub data Description : Type 0 where
  text : String → Description
  format_string : String → List (String × Node) → Description
  other : Description

module _ {V : Type 0} ⦃o : Values V⦄ (show : V → String) where
  -- The `features` of a rule, from those before.
  unfoldable pub features_of :
      List (String × Node) → Resolved V → Dict String String → Attempt (Dict String String)
  unfolding resolved
  features_of [] values d = returned d
  features_of ((identifier, node) ∷ names) values d = do
    v ← resolved values node false
    features_of names values (put identifier (show v) d)

  -- `Rule.execute`, with `show` for `str`, and without its metric.
  unfoldable pub execute_rule : Option String → Description → List Bool → Resolved V → Attempt RuleT
  unfolding features_of
  execute_rule none description when_all values = raised (exception assertion_error)
  execute_rule (some name) (text s) when_all values =
      returned
        (record { name = name; value = all (λ b. b) when_all; description = s; features = [] })
  execute_rule (some name) (format_string s names) when_all values = do
    features ← features_of names values []
    returned (record {
      name = name;
      value = all (λ b. b) when_all;
      description = s;
      features = features;
    })
  execute_rule (some name) other when_all values = raised (exception type_error)

module _ {V : Type 0} ⦃o : Values V⦄ where
  -- `WhenRules.resolve_arguments`, for either list: the items that did not fail and are not `None`.
  unfoldable pub resolve_items : List Node → Resolved V → Attempt (List V)
  unfolding resolved
  resolve_items [] values = returned []
  resolve_items (n ∷ ns) values = do
    v ← resolved values n true
    vs ← resolve_items ns values
    returned (if o.is_none v then vs else v ∷ vs)

-- `effect.add_rules(rules)`, on the object.
unfoldable pub add_rules : List RuleT → ℕ → Dict ℕ (List RuleT) → Dict ℕ (List RuleT)
unfolding rules_of
add_rules rules effect d = put effect (rules_of effect d ++ rules) d

-- The loop of `WhenRules.execute`: what is no effect has `none`; the effects that it adds before it
-- raises are kept.
unfoldable pub add_outcomes : List RuleT → List (Option ℕ) → Effects → Effects × Attempt (Unit {0})
unfolding add_rules
add_outcomes rules [] e = (e, returned tt)
add_outcomes rules (none ∷ outcomes) e = (e, raised (exception type_error))
add_outcomes rules (some effect ∷ outcomes) e =
    add_outcomes rules outcomes
      (record { rules = add_rules rules effect e.rules; added = e.added ++ effect ∷ [] })

-- `WhenRules.execute`
unfoldable pub execute_when_rules :
    List RuleT → List (Option ℕ) → Effects → Effects × Attempt (Unit {0})
unfolding add_outcomes
execute_when_rules rules_any outcomes e = elim (filter (λ r. r.value) rules_any) [
  | [] ↦ (e, returned tt)
  | rule ∷ rules ↦ add_outcomes (rule ∷ rules) outcomes e
]
