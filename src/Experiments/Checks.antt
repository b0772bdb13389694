-- ===== src/Experiments/Checks.antt =====
-- What a call of `Experiment` that passes validation cannot do.
use trust_and_safety_demo.Base.{
  ℕ, zero, suc, ◌+◌, ◌*◌, ◌/◌, ◌%◌, ◌<◌, ◌≤◌, ◌≡◌, ◌⊎◌, inl, inr, refl, arith, String, Bool, true,
  false, Option, none, some, List, [], ◌∷◌, length, elem, ltb, leb, ◌==◌, nat_eq, string_eq,
  Bool-cases, ok, beq_refl, Result-cases, is_some,
}
use native.Mathlib.Nat.{mod-lt, div-add-mod}
use trust_and_safety_demo.Base.Dict.{Dict, keys, contains, contains-elem}
use trust_and_safety_demo.Experiments.Defs.{
  granularity, control_bucket, not_in_experiment_bucket, ExperimentArguments, ExperimentT, nth,
  percentage_to_bucket_units, get_max_bucket_size, pick, get_bucket, hash_mod, execute,
  execute_when, validate, check_buckets, check_sizes, report, missing_buckets, ValidationError,
}

nth_total {ℓ} : {A : Type ℓ} (n : ℕ) (xs : List A) → n < length xs → (a : A) × (nth n xs ≡ ok a)
unfolding nth
nth_total n [] h = absurd (omega (arith, h))
nth_total zero (x ∷ xs) h = (x, refl)
nth_total (suc n) (x ∷ xs) h = nth_total n xs (omega (arith, h))

Nat-cases : (n : ℕ) → (n ≡ 0) ⊎ ((m : ℕ) × (n ≡ suc m))
Nat-cases zero = inl refl
Nat-cases (suc m) = inr (m, refl)

elem_pos : (x : String) (xs : List String) → elem x xs ≡ true → 1 ≤ length xs
elem_pos x [] h = cc
elem_pos x (y ∷ ys) h = omega arith

nth-elem : (n : ℕ) (xs : List String) (a : String) → nth n xs ≡ ok a → elem a xs ≡ true
unfolding nth
nth-elem n [] a h = cc
nth-elem zero (x ∷ xs) a h = let e : x ≡ a = cc in rw (e, beq_refl a) refl
nth-elem (suc n) (x ∷ xs) a h = ground (arith, nth-elem n xs a h)

-- What a call without errors satisfies.
record IsChecked (a : ExperimentArguments) : Type 0 where
  few : length a.buckets ≤ 10
  has_control : elem control_bucket a.buckets ≡ true
  same_length : length a.buckets ≡ length a.bucket_sizes

report_nil : (b : Bool) (e : ValidationError) → report b e ≡ [] → b ≡ false
unfolding report
report_nil true e h = cc
report_nil false e h = refl

check_buckets-IsChecked :
    (feature registered : Option String) (a : ExperimentArguments)
    → check_buckets feature a ≡ ok ([], registered)
    → IsChecked a
unfolding check_buckets report
check_buckets-IsChecked feature registered a h = elim (Bool-cases (ltb 10 (length a.buckets))) [
  | inl many ↦ absurd (ground arith)
  | inr few ↦ elim (Bool-cases (elem control_bucket a.buckets)) [
    | inl control ↦ elim (Bool-cases (length a.buckets == length a.bucket_sizes)) [
      | inl same ↦ record { few = ground arith; has_control = control; same_length = ground arith }
      | inr differ ↦ absurd (ground arith)
    ]
    | inr missing ↦ elim (Bool-cases (length a.buckets == length a.bucket_sizes)) [
      | inl same ↦ elim (Result-cases (check_sizes feature a)) [
        | inl (r, e) ↦ absurd (ground arith)
        | inr (x, e) ↦ absurd (ground arith)
      ]
      | inr differ ↦ absurd (ground arith)
    ]
  ]
]

validate-IsChecked :
    (feature registered : Option String) (a : ExperimentArguments)
    → validate feature a ≡ ok ([], registered)
    → IsChecked a
unfolding validate report
validate-IsChecked feature registered a h = elim (Result-cases (check_buckets feature a)) [
  | inl ((errors, r), e) ↦ check_buckets-IsChecked feature r a (ground arith)
  | inr (x, e) ↦ absurd (ground arith)
]

pick_total :
    (u m : ℕ) (a : ExperimentArguments)
    → length a.buckets ≡ length a.bucket_sizes
    → (bucket : String) × (pick u a (suc m) ≡ ok bucket)
      × ((bucket ≡ not_in_experiment_bucket) ⊎ (elem bucket a.buckets ≡ true))
unfolding pick
pick_total u m a same = elim (Bool-cases (ltb (length a.buckets) (u / suc m + 1))) [
  | inl past ↦ (not_in_experiment_bucket, rw past refl, inl refl)
  | inr within ↦
      let i = u / suc m in
      let inside : u / suc m < length a.buckets = ground arith in
      let (size, es) = nth_total (u / suc m) a.bucket_sizes (omega (arith, same, inside)) in
      let (b, eb) = nth_total (u / suc m) a.buckets inside in
      elim (Bool-cases (leb (percentage_to_bucket_units size + suc m * (u / suc m)) u)) [
        | inl over ↦ (not_in_experiment_bucket, rw (within, es, over) refl, inl refl)
        | inr under ↦ (b, rw (within, es, under) eb, inr (nth-elem (u / suc m) a.buckets b eb))
      ]
]

max_size_total : (n : ℕ) → 1 ≤ n → n ≤ 10 → (m : ℕ) × (get_max_bucket_size n ≡ ok (suc m))
unfolding get_max_bucket_size
max_size_total zero h k = absurd (omega (arith, h))
max_size_total (suc n) h k =
    let sum = div-add-mod granularity (suc n) in
    let small : granularity % suc n < suc n = mod-lt granularity (omega arith) in
    elim (Nat-cases (granularity / suc n)) [
      | inl e ↦
          let gone : suc n * 0 + granularity % suc n ≡ granularity = rw e at sum in
          absurd (omega (arith, gone, small, k))
      | inr (m, e) ↦ (m, rw e refl)
    ]

-- A call that passes validation puts every entity into one of its buckets or into none, without
-- raising.
pub validated-get_bucket :
    (hash : String → ℕ) (name : String) (feature registered : Option String)
    (a : ExperimentArguments)
    → validate feature a ≡ ok ([], registered)
    → (bucket : String) × (get_bucket hash name a ≡ ok bucket)
      × ((bucket ≡ not_in_experiment_bucket) ⊎ (elem bucket a.buckets ≡ true))
unfolding get_bucket
validated-get_bucket hash name feature registered a h =
    let c = validate-IsChecked feature registered a h in
    let (m, e) =
      max_size_total (length a.buckets) (elem_pos control_bucket a.buckets c.has_control) c.few in
    let (b, e', w) = pick_total (hash_mod hash name a.entity_id) m a c.same_length in
    (b, rw (e, e') refl, w)

missing_lem :
    (expected : List String) (extra : Dict String (List Bool))
    → missing_buckets expected extra ≡ []
    → (b : String) → elem b expected ≡ true
    → contains b extra ≡ true
unfolding missing_buckets
missing_lem [] extra k b h = cc
missing_lem (x ∷ xs) extra k b h = elim (Bool-cases (elem x (keys extra))) [
  | inl there ↦ elim (Bool-cases (x == b)) [
    | inl same ↦ let eq : x ≡ b = (string_eq.beq_iff x b).0 same in rw (← eq, contains-elem) there
    | inr other ↦ missing_lem xs extra (rw there at k) b (rw other at h)
  ]
  | inr gone ↦ let k' : x ∷ missing_buckets xs extra ≡ [] = rw gone at k in cc
]

Option-some {ℓ} : {A : Type ℓ} {o : Option A} → is_some o ≡ true → (a : A) × (o ≡ some a)
Option-some {o = none} h = cc
Option-some {o = some a} h = (a, refl)

elem_named :
    (xs : List String) (b : String)
    → (b ≡ not_in_experiment_bucket) ⊎ (elem b xs ≡ true)
    → (b == not_in_experiment_bucket) ≡ false
    → elem b xs ≡ true
elem_named xs b w h = ground (arith, string_eq.beq_iff b not_in_experiment_bucket)

execute_when_total :
    (e : ExperimentT) (extra : Dict String (List Bool))
    → contains control_bucket extra ≡ true
    → ((e.resolved_bucket == not_in_experiment_bucket) ≡ false
        → contains e.resolved_bucket extra ≡ true)
    → (conditions : List Bool) × (execute_when e extra ≡ ok conditions)
unfolding execute_when
execute_when_total e extra c f = elim (Bool-cases (e.resolved_bucket == not_in_experiment_bucket)) [
  | inl out ↦ let (v, ev) = Option-some c in (v, rw (execute_when, out, ev) refl)
  | inr isin ↦ let (v, ev) = Option-some (f isin) in (v, rw (execute_when, isin, ev) refl)
]

-- `ExperimentWhen` finds its conditions in such a call, once no bucket is reported as missing.
pub validated-execute_when :
    (hash : String → ℕ) (name : String) (feature registered : Option String)
    (a : ExperimentArguments) (extra : Dict String (List Bool)) (e : ExperimentT)
    → validate feature a ≡ ok ([], registered)
    → missing_buckets a.buckets extra ≡ []
    → execute hash name a ≡ ok e
    → (conditions : List Bool) × (execute_when e extra ≡ ok conditions)
unfolding execute
validated-execute_when hash name feature registered a extra e h k x =
    let (b, g, w) = validated-get_bucket hash name feature registered a h in
    let c = validate-IsChecked feature registered a h in
    let same : b ≡ e.resolved_bucket = ground (arith, g) in
    let at_control = missing_lem a.buckets extra k control_bucket c.has_control in
    execute_when_total e extra at_control (λ isin.
      missing_lem a.buckets extra k e.resolved_bucket
        (rw same at (elem_named a.buckets b w (rw (← same) at isin))))
