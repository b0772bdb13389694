-- ===== src/Execution/Wrapping.antt =====
-- Running a node: an exception makes the node fail, and is reported unless it comes from the failure
-- of another node. Metrics are left out.
use trust_and_safety_demo.Base.{
  ℕ, zero, suc, Option, none, some, List, [], ◌∷◌, ◌++◌, length, if◌then◌else◌, ◌==◌, nat_eq, Error,
  assertion_error,
}
use trust_and_safety_demo.Execution.Values.{
  Failure, propagation, exception, Attempt, returned, raised,
}

-- `NodeErrorInfo`: the error and the node that it is reported for.
pub record NodeErrorInfo : Type 0 where
  pub error : Error
  pub node : ℕ

-- The report of an exception of a node, after those before.
unfoldable pub report_error : Failure → ℕ → List NodeErrorInfo → List NodeErrorInfo
report_error propagation node infos = infos
report_error (exception e) node infos = infos ++ (record { error = e; node = node }) ∷ []

unfoldable pub report_all : Failure → List ℕ → List NodeErrorInfo → List NodeErrorInfo
unfolding report_error
report_all e [] infos = infos
report_all e (n ∷ ns) infos = report_all e ns (report_error e n infos)

unfoldable pub all_failed {ℓ} : {V : Type ℓ} → ℕ → List (Option V)
all_failed zero = []
all_failed (suc n) = none ∷ all_failed n

unfoldable pub nodes_of : {U : Type 0} → List (U × ℕ) → List ℕ
nodes_of [] = []
nodes_of ((u, n) ∷ us) = n ∷ nodes_of us

module _ {V : Type 0} where
  -- `_wrapped_execution`, on what the executor of the node did.
  unfoldable pub wrapped_execution :
      ℕ → Attempt V → List NodeErrorInfo → Option V × List NodeErrorInfo
  unfolding report_error
  wrapped_execution node (returned v) infos = (some v, infos)
  wrapped_execution node (raised e) infos = (none, report_error e node infos)

  -- The loop of `_wrapped_batch_execution` over udfs, nodes and results, which are of the same
  -- length; `check_result_type` of a udf may raise.
  unfoldable pub check_results :
      {U : Type 0}
      → (U → V → Attempt V)
      → List (U × ℕ)
      → List (Attempt V)
      → List NodeErrorInfo
      → List (Option V) × List NodeErrorInfo
  unfolding report_error
  check_results check [] rs infos = ([], infos)
  check_results check (u ∷ us) [] infos = ([], infos)
  check_results check ((u, n) ∷ us) (raised e ∷ rs) infos =
      let (out, infos') = check_results check us rs (report_error e n infos) in (none ∷ out, infos')
  check_results check ((u, n) ∷ us) (returned v ∷ rs) infos = elim (check u v) [
    | returned w ↦ let (out, infos') = check_results check us rs infos in (some w ∷ out, infos')
    | raised e ↦
        let (out, infos') = check_results check us rs (report_error e n infos) in
        (none ∷ out, infos')
  ]

  -- `_wrapped_batch_execution`, on what `execute_batch` of the first udf did.
  unfoldable pub wrapped_batch_execution :
      {U : Type 0}
      → (U → V → Attempt V)
      → List (U × ℕ)
      → Attempt (List (Attempt V))
      → List NodeErrorInfo
      → List (Option V) × List NodeErrorInfo
  unfolding report_all all_failed check_results nodes_of
  wrapped_batch_execution check batch (raised e) infos =
      (all_failed (length batch), report_all e (nodes_of batch) infos)
  wrapped_batch_execution check batch (returned results) infos =
      if length results == length batch then check_results check batch results infos else (
        all_failed (length batch),
        report_all (exception assertion_error) (nodes_of batch) infos,
      )
