-- ===== src/Execution/Values.antt =====
-- Values, failures, and what a node resolves to.
use trust_and_safety_demo.Base.{
  ℕ, Bool, Option, none, some, List, if◌then◌else◌, nat_eq, Error, key_error, assertion_error,
}
use trust_and_safety_demo.Base.Dict.{Dict, get}

-- An exception: that of a node whose dependency has failed, or any other.
pub data Failure : Type 0 where
  propagation : Failure
  exception : Error → Failure

-- What the execution of a node comes to.
pub data Attempt {ℓ} (A : Type ℓ) : Type ℓ where
  returned : A → Attempt A
  raised : Failure → Attempt A

infixl 5 ◌>>=◌ ◌>>◌
abbrev pub ◌>>=◌ {ℓ κ} : {A : Type ℓ} {B : Type κ} → Attempt A → (A → Attempt B) → Attempt B
returned a >>= f = f a
raised e >>= f = raised e

abbrev pub ◌>>◌ {ℓ} : {B : Type ℓ} → Attempt (Unit {0}) → Attempt B → Attempt B
m >> k = m >>= λ _. k

pub data Comparator : Type 0 where
  equals not_equals less_than less_than_equals greater_than greater_than_equals is_in not_in :
      Comparator

-- Python's objects: `None`, truth, `==` `!=` `<` `<=` `>` `>=`, `in`, the items of a list, and
-- `to_post_execution_value()` of a `PostExecutionConvertible`.
pub record Values (V : Type 0) : Type 0 where
  pub none_value : V
  pub is_none : V → Bool
  pub truthy : V → Bool
  pub compare_with : Comparator → V → V → Attempt Bool
  pub contained : V → V → Attempt Bool
  pub list_items : V → Option (List V)
  pub convert : V → Option V

-- A node of the syntax tree: its identity, the node that assigns to it, for a loaded name, and
-- whether the execution graph unwraps it.
pub record Node : Type 0 where
  pub id : ℕ
  pub assigned_by : Option ℕ
  pub should_unwrap : Bool

-- `_resolved_node_values`: a node that failed has `none`, which is `Err(None)`.
abbrev pub Resolved : Type 0 → Type 0
Resolved V = Dict ℕ (Option V)

module _ {V : Type 0} ⦃o : Values V⦄ where
  -- `ExecutionContext.resolved(node, return_none_for_failed_values)`
  unfoldable pub resolved : Resolved V → Node → Bool → Attempt V
  resolved values node return_none =
      let id : ℕ = elim node.assigned_by [ none ↦ node.id | some assignment ↦ assignment ] in
      elim (get id values) [
        | none ↦ raised (exception key_error)
        | some result ↦ elim result [
          | none ↦ if return_none then returned o.none_value else raised propagation
          | some v ↦
              if node.should_unwrap
              then elim (o.convert v) [
                | none ↦ raised (exception assertion_error)
                | some w ↦ returned w
              ]
              else returned v
        ]
      ]
