-- ===== src/TimeBuckets/Rounding.antt =====
-- A bucket is its own bucket.
use trust_and_safety_demo.Base.{
  ℕ, zero, suc, ◌+◌, ◌-◌, ◌*◌, ◌/◌, ◌%◌, ◌≡◌, ◌≤◌, ◌<◌, refl, ap, arith, false, ℤ, pos, negsuc, ok,
}
use native.Mathlib.Nat.{div-add-mod, mod-lt, mul-add-div, div-eq_of_lt, mul_comm, mul-mod_left}
use trust_and_safety_demo.TimeBuckets.Defs.{invalid_granularity, round_down, get_timestamp_bucket}

-- What rounding leaves over is nothing.
rest_none : (g t : ℕ) → (t - t % suc g) % suc g ≡ 0
rest_none g t =
    let m = suc g in
    let whole : t - t % suc g ≡ suc g * (t / suc g) = omega (arith, div-add-mod t (suc g)) in
    let again : (suc g * (t / suc g) + 0) / suc g ≡ t / suc g =
      rw
        (
          mul-add-div {m = suc g} (omega arith) (t / suc g) 0,
          div-eq_of_lt {n = 0} {m = suc g} (omega arith),
        )
        (omega arith) in
    let sum = div-add-mod (suc g * (t / suc g) + 0) (suc g) in
    let sum' : suc g * (t / suc g) + (suc g * (t / suc g) + 0) % suc g ≡ suc g * (t / suc g) + 0 =
      rw again at sum in
    let same : t - t % suc g ≡ suc g * (t / suc g) + 0 = omega (arith, whole) in
    rw same (omega (arith, sum'))

multiple : (g q k : ℕ) → k ≡ q * suc g → k % suc g ≡ 0
multiple g q k e = rw (e, mul-mod_left) refl

round_down-round_down :
    (g : ℕ) (t : ℤ) → round_down (suc g) (round_down (suc g) t) ≡ round_down (suc g) t
unfolding round_down
round_down-round_down g (pos t) = let r = rest_none g t in ap pos (omega (arith, r))
round_down-round_down g (negsuc n) =
    let low : (n / suc g + 1) * suc g - 1 ≡ suc g * (n / suc g) + g =
      rw (mul_comm (n / suc g + 1) (suc g)) (omega arith) in
    let q : (suc g * (n / suc g) + g) / suc g ≡ n / suc g =
      rw
        (
          mul-add-div {m = suc g} (omega arith) (n / suc g) g,
          div-eq_of_lt {n = g} {m = suc g} (omega arith),
        )
        (omega arith) in
    ap (λ k. negsuc ((k + 1) * suc g - 1)) (rw (low, q) refl)

-- With a granularity that passes the check, every timestamp, before the epoch or not, is rounded down,
-- also where the next multiple is nearer: its bucket is a multiple of the granularity, at most the
-- timestamp, and by less than the granularity. And the bucket of a bucket is that bucket.
pub get_timestamp_bucket_lem :
    (g n : ℕ)
    → invalid_granularity g ≡ false
    → ((k : ℕ) × (get_timestamp_bucket g (pos n) ≡ ok (pos k))
        × (get_timestamp_bucket g (pos k) ≡ ok (pos k))
        × (k ≤ n)
        × (n < k + g)
        × (k % g ≡ 0))
      × ((k : ℕ) × (get_timestamp_bucket g (negsuc n) ≡ ok (negsuc k))
          × (get_timestamp_bucket g (negsuc k) ≡ ok (negsuc k))
          × (n ≤ k)
          × (k < n + g)
          × ((k + 1) % g ≡ 0))
unfolding invalid_granularity get_timestamp_bucket round_down
get_timestamp_bucket_lem zero n h = absurd (ground (arith, h))
get_timestamp_bucket_lem (suc g) n h =
    let sum = div-add-mod n (suc g) in
    let small : n % suc g < suc g = mod-lt n (omega arith) in
    let low : (n / suc g + 1) * suc g - 1 ≡ suc g * (n / suc g) + g =
      rw (mul_comm (n / suc g + 1) (suc g)) (omega arith) in
    (
      (
        n - n % suc g,
        refl,
        ap ok (round_down-round_down g (pos n)),
        omega arith,
        omega (arith, small),
        rest_none g n,
      ),
      (
        (n / suc g + 1) * suc g - 1,
        refl,
        ap ok (round_down-round_down g (negsuc n)),
        omega (arith, low, sum, small),
        omega (arith, low, sum, small),
        multiple g (n / suc g + 1) _ (omega (arith, low)),
      ),
    )
