-- ===== src/TimeBuckets/Examples.antt =====
-- An hour's buckets, and the theorem at a small timestamp.
use trust_and_safety_demo.Base.{ℕ, ◌+◌, ◌%◌, ◌*◌, ◌^◌, ◌≤◌, ◌<◌, ◌≡◌, refl, pos, negsuc, ok}
use trust_and_safety_demo.TimeBuckets.Defs.{
  get_timestamp_bucket, get_snowflake_bucket, invalid_granularity,
}
use trust_and_safety_demo.TimeBuckets.Rounding.{get_timestamp_bucket_lem}

buckets_test :
    (get_timestamp_bucket 3600 (pos 7300) ≡ ok (pos 7200))
    × (get_timestamp_bucket 3600 (negsuc 0) ≡ ok (negsuc 3599))
    × (get_snowflake_bucket 0 3600 (2 ^ 22 * 7300000) ≡ ok (pos 7200))
unfolding get_timestamp_bucket get_snowflake_bucket
buckets_test = (refl, refl, refl)

get_timestamp_bucket_lem_example :
    ((k : ℕ) × (get_timestamp_bucket 3600 (pos 7300) ≡ ok (pos k))
      × (get_timestamp_bucket 3600 (pos k) ≡ ok (pos k))
      × (k ≤ 7300)
      × (7300 < k + 3600)
      × (k % 3600 ≡ 0))
    × ((k : ℕ) × (get_timestamp_bucket 3600 (negsuc 7300) ≡ ok (negsuc k))
        × (get_timestamp_bucket 3600 (negsuc k) ≡ ok (negsuc k))
        × (7300 ≤ k)
        × (k < 7300 + 3600)
        × ((k + 1) % 3600 ≡ 0))
unfolding invalid_granularity
get_timestamp_bucket_lem_example = get_timestamp_bucket_lem 3600 7300 refl
