-- ===== src/Experiments/Examples.antt =====
-- An experiment with two buckets, what the code does with it, and the theorems at it.
use trust_and_safety_demo.Base.{
  pos, ℕ, ◌≡◌, ◌⊎◌, refl, String, Bool, true, false, some, List, [], ◌∷◌, elem, string_eq, ok, err,
  zero_division_error,
}
use trust_and_safety_demo.Base.Dict.{Dict}
use trust_and_safety_demo.Experiments.Defs.{
  ExperimentArguments, ExperimentT, Decimal, get_bucket, execute, validate,
  not_in_experiment_bucket,
}
use trust_and_safety_demo.Experiments.Checks.{validated-get_bucket}

-- 25.5 %
abbrev quarter : Decimal
quarter = record { coefficient = 255; exponent = 1 }

abbrev two : ExperimentArguments
two = record {
  entity_id = "17";
  buckets = "control" ∷ "treatment" ∷ [];
  bucket_sizes = (record { coefficient = 50; exponent = 0 }) ∷ quarter ∷ [];
  version = pos 1;
  revision = pos 0;
}

abbrev hash : String → ℕ
hash s = 7507

abbrev conditions : Dict String (List Bool)
conditions = ("control", false ∷ []) ∷ ("treatment", true ∷ []) ∷ []

abbrev outcome : ExperimentT
outcome = record {
  name = "Colour";
  entity_id = "17";
  buckets = two.buckets;
  bucket_sizes = two.bucket_sizes;
  resolved_bucket = "treatment";
  version = pos 1;
  revision = pos 0;
}

validate_test : validate (some "Colour") two ≡ ok ([], some "Colour")
unfolding validate
validate_test = refl

-- No bucket at all passes the test of their number, and divides by zero.
no_buckets_test :
    validate (some "Colour") (record two { buckets = []; bucket_sizes = [] })
    ≡ err zero_division_error
unfolding validate
no_buckets_test = refl

execute_test : execute (λ s. 7507) "Colour" two ≡ ok outcome
unfolding execute
execute_test = refl

validated-get_bucket_example :
    (bucket : String) × (get_bucket hash "Colour" two ≡ ok bucket)
    × ((bucket ≡ not_in_experiment_bucket) ⊎ (elem bucket two.buckets ≡ true))
validated-get_bucket_example =
    validated-get_bucket hash "Colour" (some "Colour") (some "Colour") two validate_test
