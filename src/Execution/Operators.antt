-- ===== src/Execution/Operators.antt =====
-- What nodes do when the nodes that they depend on have failed.
use trust_and_safety_demo.Base.{
  ℕ, zero, suc, ◌≡◌, ◌⊎◌, inl, inr, refl, ap, arith, String, string_eq, Bool, true, false, Option,
  none, some, List, [], ◌∷◌, if◌then◌else◌, nat_eq, all, any, All, length, ◌==◌, Bool-cases,
  Option-cases, beq_refl,
}
use trust_and_safety_demo.Base.Dict.{Dict, get, get-put}
use trust_and_safety_demo.Execution.Values.{
  Attempt, returned, raised, propagation, Values, Node, Resolved, resolved, Failure,
}
use trust_and_safety_demo.Execution.Nodes.{
  and_operator, or_operator, all_of, any_of, boolean_operation, assign,
}
use trust_and_safety_demo.Execution.Wrapping.{
  NodeErrorInfo, report_error, all_failed, check_results, wrapped_batch_execution,
}
use trust_and_safety_demo.Execution.Rules.{resolve_items}

-- What the context holds for a node.
unfoldable pub entry : {V : Type 0} → Node → Resolved V → Option (Option V)
entry node values =
    get (elim node.assigned_by [ none ↦ node.id | some assignment ↦ assignment ]) values

Attempt-cases {ℓ} :
    {A : Type ℓ} (r : Attempt A) → ((a : A) × (r ≡ returned a)) ⊎ ((e : Failure) × (r ≡ raised e))
Attempt-cases (returned a) = inl (a, refl)
Attempt-cases (raised e) = inr (e, refl)

module _ {V : Type 0} ⦃o : Values V⦄ where
  -- The node has been executed, with success or not; if the graph unwraps it, its value can be
  -- converted.
  pub record IsSettled (values : Resolved V) (node : Node) : Type 0 where
    pub result : Option V
    pub found : entry node values ≡ some result
    pub convertible :
        node.should_unwrap ≡ true → (v : V) → result ≡ some v → (w : V) × (o.convert v ≡ some w)

  -- The value of a node that has one, converted if the graph unwraps the node.
  unfoldable pub value_of : Resolved V → Node → Option V
  unfolding entry
  value_of values node = elim (entry node values) [
    | none ↦ none
    | some result ↦ elim result [
      | none ↦ none
      | some v ↦ if node.should_unwrap then o.convert v else some v
    ]
  ]

  -- A failed node counts as false.
  unfoldable pub holds : Resolved V → Node → Bool
  unfolding value_of
  holds values node = elim (value_of values node) [ none ↦ false | some v ↦ o.truthy v ]

  unfoldable pub present : List Node → Resolved V → List V
  unfolding value_of
  present [] values = []
  present (n ∷ ns) values = elim (value_of values n) [
    | none ↦ present ns values
    | some v ↦ if o.is_none v then present ns values else v ∷ present ns values
  ]

  resolved_settled :
      (values : Resolved V) (node : Node)
      → IsSettled values node
      → (resolved values node true
          ≡ returned (elim (value_of values node) [ none ↦ o.none_value | some v ↦ v ]))
        × (resolved values node false
            ≡ elim (value_of values node) [ none ↦ raised propagation | some v ↦ returned v ])
  unfolding resolved value_of entry
  resolved_settled values node s = elim (Option-cases s.result) [
    | inl e ↦
        let f : entry node values ≡ some none = ground (arith, s.found) in
        rw (resolved, value_of, f) (refl, refl)
    | inr (v, e) ↦
        let f : entry node values ≡ some (some v) = ground (arith, s.found) in
        elim (Bool-cases node.should_unwrap) [
          | inr plain ↦ rw (resolved, value_of, f, plain) (refl, refl)
          | inl unwraps ↦
              let (w, c) = s.convertible unwraps v e in
              rw (resolved, value_of, f, unwraps, c) (refl, refl)
        ]
  ]

  truthy_settled :
      (values : Resolved V) (node : Node)
      → o.truthy o.none_value ≡ false
      → IsSettled values node
      → (v : V) × (resolved values node true ≡ returned v) × (o.truthy v ≡ holds values node)
  unfolding holds
  truthy_settled values node f s =
      let (a, b) = resolved_settled values node s in
      elim (Option-cases (value_of values node)) [
        | inl e ↦ (o.none_value, rw e at a, rw (holds, e) f)
        | inr (v, e) ↦ (v, rw e at a, rw (holds, e) refl)
      ]

  -- `and` and `or` of nodes that have been executed do not fail, also if some of the nodes have
  -- failed: a failed node counts as false, and one that the graph unwraps as its converted value. The
  -- values of those must be convertible, and `None` must count as false.
  pub boolean_operation_total :
      (nodes : List Node) (values : Resolved V)
      → o.truthy o.none_value ≡ false
      → All (IsSettled values) nodes
      → (boolean_operation and_operator nodes values ≡ returned (all (holds values) nodes))
        × (boolean_operation or_operator nodes values ≡ returned (any (holds values) nodes))
  unfolding boolean_operation all_of any_of
  boolean_operation_total [] values f h = (refl, refl)
  boolean_operation_total (n ∷ ns) values f h =
      let (v, e, t) = truthy_settled values n f h.0 in
      let (a, b) = boolean_operation_total ns values f h.1 in
      let a' : all_of ns values ≡ returned (all (holds values) ns) = a in
      let b' : any_of ns values ≡ returned (any (holds values) ns) = b in
      elim (Bool-cases (holds values n)) [
        | inl held ↦ (rw (all_of, e, t, held) a', rw (any_of, e, t, held) refl)
        | inr not_so ↦ (rw (all_of, e, t, not_so) refl, rw (any_of, e, t, not_so) b')
      ]

  -- An assignment stores the value of its node, or `None` if the node has failed, and fails itself
  -- in that case alone.
  pub assign_total :
      (target : String) (value : Node) (values : Resolved V) (outputs : Dict String V)
      → IsSettled values value
      → (get target (assign target true value values outputs).0
          ≡ some (elim (value_of values value) [ none ↦ o.none_value | some v ↦ v ]))
        × ((assign target true value values outputs).1
            ≡ elim (value_of values value) [ none ↦ raised propagation | some v ↦ returned v ])
  unfolding assign
  assign_total target value values outputs s =
      let (a, b) = resolved_settled values value s in
      rw (assign, a, b) (rw (get-put, beq_refl target) refl, refl)

  -- The items of `WhenRules`: the values of the nodes that have not failed, but for `None`.
  pub resolve_items_total :
      (nodes : List Node) (values : Resolved V)
      → o.is_none o.none_value ≡ true
      → All (IsSettled values) nodes
      → resolve_items nodes values ≡ returned (present nodes values)
  unfolding resolve_items present
  resolve_items_total [] values f h = refl
  resolve_items_total (n ∷ ns) values f h =
      let (a, b) = resolved_settled values n h.0 in
      elim (Option-cases (value_of values n)) [
        | inl e ↦
            let a' : resolved values n true ≡ returned o.none_value = rw e at a in
            rw (resolve_items, a', resolve_items_total ns values f h.1, present, e, f) refl
        | inr (v, e) ↦
            let a' : resolved values n true ≡ returned v = rw e at a in
            rw (resolve_items, a', resolve_items_total ns values f h.1, present, e) refl
      ]

all_failed-length {ℓ} : (V : Type ℓ) (n : ℕ) → length (all_failed {V = V} n) ≡ n
unfolding all_failed
all_failed-length V zero = refl
all_failed-length V (suc n) = ap suc (all_failed-length V n)

module _ {V : Type 0} where
  check_results-length :
      {U : Type 0} (check : U → V → Attempt V) (us : List (U × ℕ)) (rs : List (Attempt V))
      (infos : List NodeErrorInfo)
      → length rs ≡ length us
      → length (check_results check us rs infos).0 ≡ length us
  unfolding check_results
  check_results-length check [] rs infos h = refl
  check_results-length check (u ∷ us) [] infos h = absurd (ground (arith, h))
  check_results-length check ((u, n) ∷ us) (raised e ∷ rs) infos h =
      omega (arith, check_results-length check us rs (report_error e n infos) (omega (arith, h)))
  check_results-length check ((u, n) ∷ us) (returned v ∷ rs) infos h =
      let h' : length rs ≡ length us = omega (arith, h) in
      elim (Attempt-cases (check u v)) [
        | inl (w, e) ↦ rw (check_results, e) (ap suc (check_results-length check us rs infos h'))
        | inr (x, e) ↦
            rw (check_results, e)
              (ap suc (check_results-length check us rs (report_error x n infos) h'))
      ]

  -- A batch gives one result for each of its nodes, whatever its udfs return or raise.
  pub wrapped_batch_execution-length :
      {U : Type 0} (check : U → V → Attempt V) (batch : List (U × ℕ))
      (results : Attempt (List (Attempt V))) (infos : List NodeErrorInfo)
      → length (wrapped_batch_execution check batch results infos).0 ≡ length batch
  unfolding wrapped_batch_execution
  wrapped_batch_execution-length check batch (raised e) infos = all_failed-length V (length batch)
  wrapped_batch_execution-length check batch (returned rs) infos =
      elim (Bool-cases (length rs == length batch)) [
        | inl same ↦ rw same (check_results-length check batch rs infos (ground arith))
        | inr other ↦ rw other (all_failed-length V (length batch))
      ]
