-- ===== src/Experiments/Slots.antt =====
-- The slots of the buckets: the bucket of an entity, and what the validation rules out.
use trust_and_safety_demo.Base.{
  ℕ, zero, suc, ◌+◌, ◌*◌, ◌/◌, ◌<◌, ◌≡◌, arith, String, length, if◌then◌else◌, ltb, nat_eq,
  string_eq, ok,
}
use native.Mathlib.Nat.{mul-add-div, div-eq_of_lt}
use trust_and_safety_demo.Experiments.Defs.{
  not_in_experiment_bucket, ExperimentArguments, Decimal, nth, percentage_to_bucket_units, pick,
}

-- A unit index in the slot of a bucket gives that bucket if it lies within the bucket's size, and no
-- bucket otherwise.
pub pick-slot :
    (a : ExperimentArguments) (m i r : ℕ) (bucket : String) (size : Decimal)
    → r < m
    → i < length a.buckets
    → nth i a.buckets ≡ ok bucket
    → nth i a.bucket_sizes ≡ ok size
    → pick (m * i + r) a m
      ≡ ok (if ltb r (percentage_to_bucket_units size) then bucket else not_in_experiment_bucket)
unfolding pick
pick-slot a zero i r bucket size hr hi hb hs = absurd (omega (arith, hr))
pick-slot a (suc m) i r bucket size hr hi hb hs =
    let q : (suc m * i + r) / suc m ≡ i =
      rw (mul-add-div {m = suc m} (omega arith) i r, div-eq_of_lt hr) (omega arith) in
    rw (q, hs, hb) (ground arith)
