-- ===== src/Experiments/Defs.antt =====
-- Experiment arguments, their validation, and the bucket of an entity.
use trust_and_safety_demo.Base.{
  ℤ, pos, negsuc, ℕ, zero, suc, ◌+◌, ◌*◌, ◌/◌, ◌%◌, ◌^◌, String, Bool, true, false, not, Option,
  none, some, List, [], ◌∷◌, ◌++◌, filter, length, elem, if◌then◌else◌, ltb, leb, ◌==◌, nat_eq,
  string_eq, Result, ok, err, index_error, key_error, zero_division_error, attribute_error, ◌>>=◌,
}
use trust_and_safety_demo.Base.Dict.{Dict, get, keys}
use Prim.Native.String.{◌++◌ as concat}

abbrev pub granularity : ℕ
granularity = 10000

abbrev pub control_bucket : String
control_bucket = "control"

-- The one empty text of the interpreter, so that `is` compares with it by value.
abbrev pub not_in_experiment_bucket : String
not_in_experiment_bucket = ""

-- coefficient / 10 ^ exponent
pub record Decimal : Type 0 where
  pub coefficient : ℕ
  pub exponent : ℕ

pub record ExperimentArguments : Type 0 where
  pub entity_id : String
  pub buckets : List String
  pub bucket_sizes : List Decimal
  pub version : ℤ
  pub revision : ℤ

pub record ExperimentT : Type 0 where
  pub name : String
  pub entity_id : String
  pub buckets : List String
  pub bucket_sizes : List Decimal
  pub resolved_bucket : String
  pub version : ℤ
  pub revision : ℤ

pub data ValidationError : Type 0 where
  must_assign negative_version negative_revision number_of_buckets no_control : ValidationError
  different_lengths precision_too_high over_max_size : ValidationError

unfoldable pub nth {ℓ} : {A : Type ℓ} → ℕ → List A → Result A
nth n [] = err index_error
nth zero (x ∷ xs) = ok x
nth (suc n) (x ∷ xs) = nth n xs

-- `Decimal(str(p)) * Decimal(100)` is whole.
unfoldable pub is_whole_units : Decimal → Bool
is_whole_units p = (p.coefficient * (granularity / 100)) % 10 ^ p.exponent == 0

unfoldable pub percentage_to_bucket_units : Decimal → ℕ
percentage_to_bucket_units p = p.coefficient * (granularity / 100) / 10 ^ p.exponent

unfoldable pub get_max_bucket_size : ℕ → Result ℕ
get_max_bucket_size zero = err zero_division_error
get_max_bucket_size (suc n) = ok (granularity / suc n)

unfoldable pub is_negative : ℤ → Bool
is_negative (pos n) = false
is_negative (negsuc n) = true

-- The errors that a failed test adds.
unfoldable pub report : Bool → ValidationError → List ValidationError
report failed e = if failed then e ∷ [] else []

unfoldable pub precision_errors : List Decimal → List ValidationError
unfolding is_whole_units report
precision_errors [] = []
precision_errors (p ∷ ps) =
    report (not (is_whole_units p)) precision_too_high ++ precision_errors ps

unfoldable pub size_errors : ℕ → List Decimal → List ValidationError
unfolding percentage_to_bucket_units report
size_errors max [] = []
size_errors max (p ∷ ps) =
    report (ltb max (percentage_to_bucket_units p)) over_max_size ++ size_errors max ps

-- The checks on the buckets, after those on the version and the revision.
unfoldable pub check_sizes :
    Option String → ExperimentArguments → Result (List ValidationError × Option String)
unfolding precision_errors size_errors get_max_bucket_size
check_sizes feature a = do
  max ← get_max_bucket_size (length a.bucket_sizes)
  elim feature [
    | none ↦ err attribute_error
    | some name ↦ ok (precision_errors a.bucket_sizes ++ size_errors max a.bucket_sizes, some name)
  ]

unfoldable pub check_buckets :
    Option String → ExperimentArguments → Result (List ValidationError × Option String)
unfolding report check_sizes
check_buckets feature a =
    if ltb 10 (length a.buckets)
    then ok (number_of_buckets ∷ [], none)
    else (let control = report (not (elem control_bucket a.buckets)) no_control in
        if not (length a.buckets == length a.bucket_sizes)
        then ok (control ++ different_lengths ∷ [], none)
        else (do (errors, registered) ← check_sizes feature a; ok (control ++ errors, registered)))

-- `Experiment.__init__` in a call that is assigned to `feature`: the errors, and the feature under
-- which the call is registered.
unfoldable pub validate :
    Option String → ExperimentArguments → Result (List ValidationError × Option String)
unfolding report check_buckets is_negative
validate feature a = do
  (errors, registered) ← check_buckets feature a
  ok (
    report (elim feature [ none ↦ true | some _ ↦ false ]) must_assign
        ++ report (is_negative a.version) negative_version
        ++ report (is_negative a.revision) negative_revision
        ++ errors,
    registered,
  )

-- The bucket at an index of the bucket units.
unfoldable pub pick : ℕ → ExperimentArguments → ℕ → Result String
unfolding nth percentage_to_bucket_units
pick unit_index a zero = err zero_division_error
pick unit_index a (suc m) =
    let max_units = suc m in
    let bucket_index = unit_index / max_units in
    let unit_offset = max_units * bucket_index in
    if ltb (length a.buckets) (bucket_index + 1) then ok not_in_experiment_bucket else (do
      size ← nth bucket_index a.bucket_sizes
      if leb (percentage_to_bucket_units size + unit_offset) unit_index
          then ok not_in_experiment_bucket
          else nth bucket_index a.buckets)

module _ (hash : String → ℕ) where
  unfoldable pub hash_mod : String → String → ℕ
  hash_mod name entity_id = hash (concat name (concat "/" entity_id)) % granularity

  unfoldable pub get_bucket : String → ExperimentArguments → Result String
  unfolding hash_mod get_max_bucket_size pick
  get_bucket name a = do
    max_units ← get_max_bucket_size (length a.buckets)
    pick (hash_mod name a.entity_id) a max_units

  unfoldable pub execute : String → ExperimentArguments → Result ExperimentT
  unfolding get_bucket
  execute name a = do
    bucket ← get_bucket name a
    ok (record {
      name = name;
      entity_id = a.entity_id;
      buckets = a.buckets;
      bucket_sizes = a.bucket_sizes;
      resolved_bucket = bucket;
      version = a.version;
      revision = a.revision;
    })

-- `_validate_experimentwhen`: the buckets that miss, and those that are not expected.
unfoldable pub missing_buckets : List String → Dict String (List Bool) → List String
missing_buckets expected extra = filter (λ b. not (elem b (keys extra))) expected

unfoldable pub unexpected_buckets : List String → Dict String (List Bool) → List String
unexpected_buckets expected extra = filter (λ b. not (elem b expected)) (keys extra)

-- `ExperimentWhen.execute`
unfoldable pub execute_when : ExperimentT → Dict String (List Bool) → Result (List Bool)
execute_when e extra =
    let bucket =
      if e.resolved_bucket == not_in_experiment_bucket then control_bucket else e.resolved_bucket in
    elim (get bucket extra) [ none ↦ err key_error | some conditions ↦ ok conditions ]

-- `InExperiment.execute`
unfoldable pub in_experiment : ExperimentT → Bool
in_experiment e = not (e.resolved_bucket == not_in_experiment_bucket)
